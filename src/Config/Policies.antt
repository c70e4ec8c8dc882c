-- ===== src/Config/Policies.antt =====
-- The endpoints of policies in netops-backend/routes/config_module.py, and the check of one policy.
use Prim.Native.String as Text
use Prim.Native.Char.{code}
use net_soc_ops.Prelude.{
  ℕ, zero, suc, String, Bool, true, false, not, ◌&&◌, ◌||◌, Option, none, some, List, [], ◌∷◌, ◌++◌,
  strip, find, select, update, modify_first, any, length, get_or, str_eq, ◌==◌, if◌then◌else◌,
}
use net_soc_ops.Prelude.Results.{Result, ok, err, ◌>>=◌}
use net_soc_ops.Config.Store.{
  Policy, ReportPolicy, ComplianceResult, Db, Failure, not_found, integrity_error,
}

pub record PolicyCreate : Type 0 where
  pub name : String
  pub rule_type : String
  pub rule_content : String
  pub device_type : Option String
  pub description : Option String
  pub group : Option String
  pub enabled : Option Bool

pub record PolicyUpdate : Type 0 where
  pub name : Option String
  pub rule_type : Option String
  pub rule_content : Option String
  pub device_type : Option String
  pub description : Option String
  pub group : Option String
  pub enabled : Option Bool

unfoldable pub create_compliance_policy : PolicyCreate → Db → Db
create_compliance_policy body db = record db {
  policies =
      db.policies
      ++ record {
        id = db.next_policy;
        name = body.name;
        rule_type = body.rule_type;
        rule_content = body.rule_content;
        device_type = body.device_type;
        description = body.description;
        group = body.group;
        enabled = get_or body.enabled true;
      }
        ∷ [];
  next_policy = suc db.next_policy;
}

abbrev pub find_policy : ℕ → Db → Option Policy
find_policy id db = find (λ p. p.id == id) db.policies

abbrev set_or {ℓ} : {A : Type ℓ} → Option A → Option A → Option A
set_or none old = old
set_or (some x) old = some x

-- The assignments to `p`.
unfoldable pub changed_policy : PolicyUpdate → Policy → Policy
changed_policy body p = record p {
  name = get_or body.name p.name;
  rule_type = get_or body.rule_type p.rule_type;
  rule_content = get_or body.rule_content p.rule_content;
  device_type = set_or body.device_type p.device_type;
  description = set_or body.description p.description;
  group = set_or body.group p.group;
  enabled = get_or body.enabled p.enabled;
}

unfoldable pub update_compliance_policy : ℕ → PolicyUpdate → Db → Result Failure Db
unfolding changed_policy
update_compliance_policy id body db = elim (find_policy id db) [
  | none ↦ err not_found
  | some p ↦
      ok (record db { policies = modify_first (λ x. x.id == id) (changed_policy body) db.policies })
]

unfoldable pub update_compliance_policy_enabled : ℕ → Bool → Db → Result Failure Db
update_compliance_policy_enabled id enabled db = elim (find_policy id db) [
  | none ↦ err not_found
  | some p ↦ ok (record db {
    policies = modify_first (λ x. x.id == id) (λ x. record x { enabled = enabled }) db.policies;
  })
]

abbrev has_no_group : Policy → Bool
has_no_group p = elim p.group [ none ↦ true | some g ↦ str_eq g "" ]

abbrev has_group : String → Policy → Bool
has_group group p = elim p.group [ none ↦ false | some g ↦ str_eq g group ]

-- The filter of the two endpoints on groups.
unfoldable pub is_in_group : Option String → Policy → Bool
unfolding strip
is_in_group none = has_no_group
is_in_group (some group) = if str_eq (strip group) "" then has_no_group else has_group (strip group)

unfoldable pub bulk_update_compliance_policies_enabled_by_group : Option String → Bool → Db → ℕ × Db
unfolding is_in_group
bulk_update_compliance_policies_enabled_by_group group enabled db = (
  length (select (is_in_group group) db.policies),
  record db {
    policies = update (is_in_group group) (λ p. record p { enabled = enabled }) db.policies;
  },
)

abbrev pub names_policy : List Policy → ComplianceResult → Bool
names_policy ps r = any (λ p. p.id == r.policy_id) ps

abbrev links_policy : List Policy → ReportPolicy → Bool
links_policy ps l = any (λ p. p.id == l.policy_id) ps

-- The foreign keys: results keep a policy from being deleted, links go with it.
unfoldable pub remove_policies : (Policy → Bool) → Db → Result Failure Db
remove_policies p db =
    let gone = select p db.policies in
    if any (names_policy gone) db.results
    then err integrity_error
    else ok (record db {
      policies = select (λ x. not (p x)) db.policies;
      report_policies = select (λ l. not (links_policy gone l)) db.report_policies;
    })

unfoldable pub delete_compliance_policies_by_group : Option String → Db → Result Failure (ℕ × Db)
unfolding is_in_group remove_policies
delete_compliance_policies_by_group group db = do
  db' ← remove_policies (is_in_group group) db
  ok (length (select (is_in_group group) db.policies), db')

unfoldable pub delete_compliance_policy : ℕ → Db → Result Failure Db
unfolding remove_policies
delete_compliance_policy id db = elim (find_policy id db) [
  | none ↦ err not_found
  | some p ↦ remove_policies (λ x. x.id == id) db
]

-- `text.startswith(rule)`.
abbrev starts : String → String → Bool
starts Text.[] text = true
starts (Text.◌∷◌ c rule) Text.[] = false
starts (Text.◌∷◌ c rule) (Text.◌∷◌ d text) = (code c == code d) && starts rule text

-- `rule in text`.
unfoldable pub is_part : String → String → Bool
is_part rule Text.[] = starts rule Text.[]
is_part rule (Text.◌∷◌ d text) = starts rule (Text.◌∷◌ d text) || is_part rule text

abbrev pub clip : ℕ → String → String
clip zero text = Text.[]
clip (suc n) Text.[] = Text.[]
clip (suc n) (Text.◌∷◌ c text) = Text.◌∷◌ c (clip n text)

-- `re.search` in the two modes: `none` is `re.error`, and the match is its text.
abbrev regex_result : Option (Option String) → Bool × String
regex_result none = (false, "正则表达式错误")
regex_result (some none) = (false, "未匹配")
regex_result (some (some m)) = (true, clip 200 m)

unfoldable pub run_policy_on_content :
    (String → String → Option (Option String)) → Policy → String → Bool × String
unfolding strip is_part
run_policy_on_content find_match policy text =
    let rule = strip policy.rule_content in
    if str_eq policy.rule_type "must_contain"
    then (if is_part rule text then (true, "包含") else (false, "未包含"))
    else if str_eq policy.rule_type "must_not_contain"
    then (if is_part rule text then (false, "包含(不通过)") else (true, "未包含(通过)"))
    else if str_eq policy.rule_type "regex"
    then regex_result (find_match rule text)
    else (false, "未知规则类型")
