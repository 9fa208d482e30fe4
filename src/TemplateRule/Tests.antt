-- ===== src/TemplateRule/Tests.antt =====
-- A rule on three templates, and witnesses of the theorems on it.
use container_service_extens.Common.{
  ℕ, zero, suc, String, ◌≡◌, refl, Option, some, none, List, [], ◌∷◌,
}
use container_service_extens.Common.Dict.{Dict, lookup, insert}
use container_service_extens.TemplateRule.{
  number, Template, TemplateRule, target_of, apply, find_template, override_items, validate,
  template_table, insert_template, update_at,
}
use container_service_extens.TemplateRule.Override.{overridden, apply-override_last}

abbrev str : ℕ → String
str zero = "0"
str (suc zero) = "1"
str (suc (suc n)) = "2"

abbrev template : String → ℕ → Dict String → Template str String
template n r d = record { name = n; revision = number r; items = d }

abbrev templates : List (Template str String)
templates =
    template "k8" 1 (("cpu", "2") ∷ [])
    ∷ template "k8" 2 (("cpu", "2") ∷ ("cni", "antrea") ∷ [])
    ∷ template "tkg" 2 []
    ∷ []

abbrev action : Dict (Option String)
action = ("cpu", some "4") ∷ ("memory", none) ∷ ("cni", some "weave") ∷ []

abbrev rule : TemplateRule str String
rule = record {
  name = "more";
  target = some (record { name = some "k8"; revision = some (number 2) });
  action = action;
}

-- The processors of the target change, and neither its plugin nor another template.
applied :
    apply str String rule templates
    ≡ template "k8" 1 (("cpu", "2") ∷ [])
      ∷ template "k8" 2 (("cpu", "4") ∷ ("cni", "antrea") ∷ [])
      ∷ template "tkg" 2 []
      ∷ []
unfolding apply find_template lookup insert target_of validate template_table insert_template
    override_items update_at
applied = refl

apply-override_last_example :
    apply str String rule templates
    ≡ overridden str String rule templates (target_of str String rule)
apply-override_last_example = apply-override_last str String rule templates
