-- ===== src/TemplateRule.antt =====
-- container_service_extension/installer/templates/template_rule.py: a rule that overrides
-- attributes of one template. A template is its name, its revision and its further items; the table
-- that `apply` builds refers to a template by its place in the list, which is updated there. `str`
-- is Python's text of a number, and `V` the type of the values of items.
pub mod Override
pub mod Items
mod Tests
use container_service_extens.Common.{
  ℕ, zero, suc, ◌+◌, String, Bool, true, false, not, ◌||◌, Option, none, some, List, [], ◌∷◌, ◌==◌,
  if◌then◌else◌, Result, ok, err, ◌>>=◌, ◌>>◌, guard,
}
use container_service_extens.Common.Dict.{Dict, lookup, insert}

-- A revision as a file of rules or a template gives it.
pub data Revision : Type 0 where
  number : ℕ → Revision
  text : String → Revision

pub record Target : Type 0 where
  pub name : Option String
  pub revision : Option Revision

-- Why `_validate` returns False.
pub data Refusal : Type 0 where
  no_target no_target_name no_target_revision unknown_template unknown_revision no_action : Refusal

abbrev pub Table : Type 0
Table = Dict (Dict ℕ)

unfoldable pub or_empty : Option (Dict ℕ) → Dict ℕ
or_empty none = []
or_empty (some d) = d

unfoldable pub insert_template : String → String → ℕ → Table → Table
unfolding or_empty
insert_template name revision i t = insert name (insert revision i (or_empty (lookup name t))) t

unfoldable pub find_revision : String → Option (Dict ℕ) → Option ℕ
find_revision revision none = none
find_revision revision (some d) = lookup revision d

-- `template_table[name][revision]`
unfoldable pub find_template : String → String → Table → Option ℕ
unfolding find_revision
find_template name revision t = find_revision revision (lookup name t)

given : {A : Type 0} → (A → Bool) → Option A → Refusal → Result Refusal A
given falsy none e = err e
given falsy (some a) e = if falsy a then err e else ok a

falsy_text : String → Bool
falsy_text s = s == ""

falsy_revision : Revision → Bool
falsy_revision (number zero) = true
falsy_revision (number (suc n)) = false
falsy_revision (text s) = s == ""

never : Target → Bool
never t = false

unfoldable pub is_given {ℓ} : {A : Type ℓ} → Option A → Bool
is_given none = false
is_given (some a) = true

module _ (str : ℕ → String) (V : Type 0) where
  pub record Template : Type 0 where
    pub name : String
    pub revision : Revision
    pub items : Dict V

  -- A value of the action may be None.
  pub record TemplateRule : Type 0 where
    pub name : String
    pub target : Option Target
    pub action : Dict (Option V)

  unfoldable pub revision_text : Revision → String
  revision_text (number n) = str n
  revision_text (text s) = s

  -- The loop of `apply` that arranges the templates by name and revision.
  unfoldable pub template_table : List Template → ℕ → Table → Table
  unfolding revision_text
  template_table [] i t = t
  template_table (x ∷ xs) i t =
      template_table xs (suc i) (insert_template x.name (revision_text x.revision) i t)

  unfoldable pub is_empty : Dict (Option V) → Bool
  is_empty [] = true
  is_empty (_ ∷ _) = false

  -- The name and the revision that a rule aims at.
  unfoldable pub target_of : TemplateRule → Result Refusal (String × String)
  unfolding given falsy_text falsy_revision never revision_text
  target_of r = do
    t ← given never r.target no_target
    name ← given falsy_text t.name no_target_name
    revision ← given falsy_revision t.revision no_target_revision
    ok (name, revision_text revision)

  -- `_validate`, with the name and the revision that `apply` reads again. Invalid actions are only
  -- warned of.
  unfoldable pub validate : TemplateRule → Table → Result Refusal (String × String)
  unfolding is_given is_empty
  validate r table = do
    target ← target_of r
    guard (is_given (lookup target.0 table)) unknown_template
    guard (is_given (find_template target.0 target.1 table)) unknown_revision
    guard (not (is_empty r.action)) no_action
    ok target

  -- `action.get(key)`, written to the template if it is not None.
  unfoldable pub set_item : String → Option (Option V) → Dict V → Dict V
  set_item key (some (some v)) d = insert key v d
  set_item key _ d = d

  unfoldable pub override_items : Dict (Option V) → Dict V → Dict V
  unfolding set_item
  override_items a d =
      set_item "memory" (lookup "memory" a)
        (set_item "cpu" (lookup "cpu" a) (set_item "compute_policy" (lookup "compute_policy" a) d))

  unfoldable pub override : Dict (Option V) → Template → Template
  unfolding override_items
  override a x = record x { items = override_items a x.items }

  -- A change of the template at a place of the list.
  unfoldable pub update_at : (Template → Template) → ℕ → List Template → List Template
  update_at f i [] = []
  update_at f zero (x ∷ xs) = f x ∷ xs
  update_at f (suc i) (x ∷ xs) = x ∷ update_at f i xs

  unfoldable pub update_found : (Template → Template) → Option ℕ → List Template → List Template
  update_found f none xs = xs
  update_found f (some i) xs = update_at f i xs

  unfoldable pub apply_valid :
      TemplateRule → Table → List Template → Result Refusal (String × String) → List Template
  unfolding update_found override
  apply_valid r table xs (err e) = xs
  apply_valid r table xs (ok target) =
      update_found (override r.action) (find_template target.0 target.1 table) xs

  unfoldable pub apply : TemplateRule → List Template → List Template
  unfolding apply_valid
  apply r xs = let table = template_table xs 0 [] in apply_valid r table xs (validate r table)
