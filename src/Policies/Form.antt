-- ===== src/Policies/Form.antt =====
-- The policy form, frontend/src/mystic_auth/policies/dialogs/usePolicyFormState.ts. A render and a
-- handler are functions on the form's state; the JSON functions and `trim` of the platform are
-- parameters, and so is the check of what the caller may grant.
pub mod Edits
pub mod Options
use manifest_cv.Prelude.{
  ℕ, ◌-◌, String, List, [], ◌∷◌, ◌++◌, map, Option, some, none, Bool, true, false, not, ◌&&◌, ◌||◌,
  filter, includes, add, length, Eq, ◌==◌, string_eq, ltb, if◌then◌else◌,
}

pub record CatalogEntry : Type 0 where
  pub action : String
  pub resource_type : String

pub data Tab : Type 0 where
  basics_tab actions_tab : Tab

-- The fields that a snapshot holds.
pub record Fields : Type 0 where
  pub name : String
  pub description : String
  pub actions : List String
  pub resource_type : String
  pub conditions_text : String

pub record Form : Type 0 where
  pub fields : Fields
  pub tab : Tab
  pub conditions_enabled : Bool
  pub initial_snapshot : String
  pub prev_is_open : Bool

pub record Policy (C : Type 0) : Type 0 where
  pub name : String
  pub description : Option String
  pub actions : List String
  pub resource_type : String
  pub conditions : Option C

-- `JSON.stringify` of the fields and of conditions, `JSON.parse` where it gives an object, and the
-- test of `text.trim()`.
pub record Platform (C : Type 0) : Type 0 where
  pub stringify : Fields → String
  pub print : C → String
  pub read_object : String → Option C
  pub is_blank : String → Bool

abbrev pub all_resource_types_value : String
all_resource_types_value = "*"

abbrev pub or_blank : Option String → String
or_blank none = ""
or_blank (some text) = text

abbrev pub is_some {ℓ} : {A : Type ℓ} → Option A → Bool
is_some none = false
is_some (some a) = true

-- The resource types of the catalog, each once, with `*` first if the edited policy has it.
abbrev pub resource_types : List CatalogEntry → List String → List String
resource_types [] types = types
resource_types (entry ∷ rest) types = resource_types rest (add entry.resource_type types)

unfoldable pub resource_type_options :
    {C : Type 0} → List CatalogEntry → Option (Policy C) → List String
resource_type_options catalog none = resource_types catalog []
resource_type_options catalog (some policy) =
    if policy.resource_type == all_resource_types_value
    then all_resource_types_value ∷ resource_types catalog []
    else resource_types catalog []

abbrev pub is_of_type : String → CatalogEntry → Bool
is_of_type resource_type entry =
    resource_type == all_resource_types_value || entry.resource_type == resource_type

-- The entries of the selected type that may be granted, then the others that are selected already.
unfoldable pub action_options : (String → Bool) → List CatalogEntry → Fields → List String
unfolding includes
action_options can_grant catalog fields =
    let entries = filter (is_of_type fields.resource_type) catalog in
    map (λ entry. entry.action)
      (filter (λ entry. can_grant entry.action) entries
        ++ filter (λ entry. includes fields.actions entry.action && not (can_grant entry.action))
            entries)

abbrev pub valid_actions : List CatalogEntry → String → List String
valid_actions catalog value = map (λ entry. entry.action) (filter (is_of_type value) catalog)

-- The new form, and the number of cleared actions that a toast tells of, if any.
unfoldable pub handle_resource_type_change : List CatalogEntry → String → Form → Form × Option ℕ
unfolding includes
handle_resource_type_change catalog value form =
    let kept = filter (λ a. includes (valid_actions catalog value) a) form.fields.actions in
    let cleared = length form.fields.actions - length kept in
    (
      record form { fields = record form.fields { resource_type = value; actions = kept } },
      if ltb 0 cleared then some cleared else none,
    )

-- The toast's Undo, which has the type and the actions from before.
unfoldable pub undo_resource_type_change : Form → Form → Form
undo_resource_type_change previous form = record form {
  fields = record form.fields {
    resource_type = previous.fields.resource_type;
    actions = previous.fields.actions;
  };
}

module _ {C : Type 0} (platform : Platform C) where
  -- The message on the conditions is shown.
  unfoldable pub conditions_error : Form → Bool
  conditions_error form =
      if not form.conditions_enabled || platform.is_blank form.fields.conditions_text
      then false
      else not (is_some (platform.read_object form.fields.conditions_text))

  abbrev pub fields_of : Option (Policy C) → Fields
  fields_of none = record {
    name = "";
    description = "";
    actions = [];
    resource_type = "";
    conditions_text = "";
  }
  fields_of (some policy) = record {
    name = policy.name;
    description = or_blank policy.description;
    actions = policy.actions;
    resource_type = policy.resource_type;
    conditions_text = elim policy.conditions [ none ↦ "" | some c ↦ platform.print c ];
  }

  abbrev pub has_conditions : Option (Policy C) → Bool
  has_conditions none = false
  has_conditions (some policy) = is_some policy.conditions

  abbrev pub opened : Option (Policy C) → Form
  opened policy = record {
    fields = fields_of policy;
    tab = basics_tab;
    conditions_enabled = has_conditions policy;
    initial_snapshot = platform.stringify (fields_of policy);
    prev_is_open = true;
  }

  -- The adjustment during render: a dialog that has just opened takes the policy's fields.
  unfoldable pub render : Bool → Option (Policy C) → Form → Form
  render is_open policy form =
      if is_open
      then (if form.prev_is_open then form else opened policy)
      else (if form.prev_is_open then record form { prev_is_open = false } else form)

  unfoldable pub is_dirty : Form → Bool
  is_dirty form = not (platform.stringify form.fields == form.initial_snapshot)

  unfoldable pub handle_actions_change : List String → Form → Form
  handle_actions_change next form = record form {
    fields = record form.fields { actions = next };
    initial_snapshot = platform.stringify (record form.fields { actions = next });
  }

  -- The rollback that `onActionsChange` is given.
  unfoldable pub revert_actions_change : Form → Form → Form
  revert_actions_change previous form = record form {
    fields = record form.fields { actions = previous.fields.actions };
    initial_snapshot = previous.initial_snapshot;
  }

  -- `requestExit` asks for a confirmation, or exits at once.
  unfoldable pub request_exit : Form → Bool
  unfolding is_dirty
  request_exit form = not (is_dirty form)

  unfoldable pub can_save : Form → Bool
  unfolding conditions_error
  can_save form =
      not (platform.is_blank form.fields.name)
      && not (form.fields.resource_type == "")
      && ltb 0 (length form.fields.actions)
      && not (conditions_error form)

-- What `handleSubmit` does; `JSON.parse` can throw.
pub data Submitted (C : Type 0) : Type 0 where
  shows_basics : Form → Submitted C
  submits : Fields → Option C → Submitted C
  throws : Submitted C

module _ {C : Type 0} (platform : Platform C) where
  unfoldable pub handle_submit : Form → Submitted C
  unfolding conditions_error
  handle_submit form =
      if conditions_error platform form
      then shows_basics (record form { tab = basics_tab })
      else if form.conditions_enabled && not (platform.is_blank form.fields.conditions_text)
      then elim (platform.read_object form.fields.conditions_text) [
        | none ↦ throws
        | some conditions ↦ submits form.fields (some conditions)
      ]
      else submits form.fields none
