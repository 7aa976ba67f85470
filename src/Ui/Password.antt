-- ===== src/Ui/Password.antt =====
-- Password rules, frontend/src/mystic_auth/auth/password_rules/passwordRules.ts. A password is the
-- list of its UTF-16 code units, and a message is its translation key.
use manifest_cv.Prelude.{
  ℕ, ◌≡◌, ◌↔◌, String, List, [], ◌∷◌, Option, some, none, Bool, ◌&&◌, any, filter, length, leb,
  nat_eqb, if◌then◌else◌, arith,
}

pub record PasswordRules : Type 0 where
  pub length_rule : Bool
  pub upper_rule : Bool
  pub lower_rule : Bool
  pub number_rule : Bool

pub data PasswordStrength : Type 0 where
  blank weak medium strong : PasswordStrength

abbrev pub in_range : ℕ → ℕ → ℕ → Bool
in_range low high c = leb low c && leb c high

-- The ranges A-Z, a-z and 0-9.
unfoldable pub check_password_rules : List ℕ → PasswordRules
check_password_rules pwd = record {
  length_rule = leb 8 (length pwd);
  upper_rule = any (in_range 65 90) pwd;
  lower_rule = any (in_range 97 122) pwd;
  number_rule = any (in_range 48 57) pwd;
}

abbrev pub passed : PasswordRules → ℕ
passed rules = length (
    filter (λ b. b)
      (rules.length_rule ∷ rules.upper_rule ∷ rules.lower_rule ∷ rules.number_rule ∷ []))

unfoldable pub evaluate_password_strength : List ℕ → PasswordStrength
unfolding check_password_rules
evaluate_password_strength [] = blank
evaluate_password_strength (c ∷ cs) =
    let rules = check_password_rules (c ∷ cs) in
    if leb (passed rules) 2 then weak else if nat_eqb (passed rules) 3 then medium else strong

unfoldable pub validate_password : List ℕ → Option String
unfolding check_password_rules
validate_password pwd =
    let rules = check_password_rules pwd in
    if rules.length_rule
    then if rules.upper_rule
      then if rules.lower_rule
        then if rules.number_rule then none else some "auth:passwordRules.numberError"
        else some "auth:passwordRules.lowerError"
      else some "auth:passwordRules.upperError"
    else some "auth:passwordRules.lengthError"

-- A password is shown as strong exactly if the validation accepts it.
pub validate_password-iff-strong :
    (pwd : List ℕ) → (validate_password pwd ≡ none) ↔ (evaluate_password_strength pwd ≡ strong)
unfolding validate_password evaluate_password_strength check_password_rules
validate_password-iff-strong [] = ((λ h. cc), (λ h. cc))
validate_password-iff-strong (c ∷ cs) = ground arith
