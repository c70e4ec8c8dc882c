-- ===== src/Config/Xml.antt =====
-- The export and import of reports as XML in netops-backend/routes/config_module.py, on documents as
-- trees of `xml.etree`. The printing and the parsing of a document are arguments.
pub mod Read
use Prim.Native.String as Text
use Prim.Native.Char.{code}
use net_soc_ops.Prelude.{
  ℕ, suc, String, Bool, true, false, not, ◌||◌, Option, none, some, List, [], ◌∷◌, ◌++◌, map, strip,
  lower, find, select, any, get_or, str_eq, ◌==◌, if◌then◌else◌,
}
use net_soc_ops.Prelude.Results.{Result, ok, err, ◌>>=◌}
use net_soc_ops.Config.Store.{Policy, Report, Db, Failure, not_found, bad_request}
use net_soc_ops.Config.Policies.{is_part, clip}
use net_soc_ops.Config.Reports.{find_report, add_links}
use net_soc_ops.Config.Compliance.{is_in, linked_ids}

-- An element: its tag, its attributes, the text before its first child (empty for none), and its
-- children.
mutual
  pub data Element : Type 0 where
    node : String → List (String × String) → String → Elements → Element

  pub data Elements : Type 0 where
    end : Elements
    child : Element → Elements → Elements

abbrev pub tag_of : Element → String
tag_of (node tag attributes text children) = tag

abbrev pub children_of : Element → Elements
children_of (node tag attributes text children) = children

-- `el.get(key)`.
abbrev pub attribute : String → Element → Option String
attribute key (node tag attributes text children) = elim (find (λ a. str_eq a.0 key) attributes) [
  | none ↦ none
  | some (k, v) ↦ some v
]

-- `a or b` on texts, where none counts as empty.
abbrev pub or_text : Option String → String → String
or_text none other = other
or_text (some s) other = if str_eq s "" then other else s

-- `parent.findall(tag)`: the children of a tag.
abbrev pub with_tag : String → Elements → List Element
with_tag tag end = []
with_tag tag (child e es) =
    let rest = with_tag tag es in if str_eq (tag_of e) tag then e ∷ rest else rest

abbrev first_of : List Element → Option Element
first_of [] = none
first_of (e ∷ es) = some e

-- The tag up to its first `}`, if it has one.
unfoldable pub namespace : String → Option String
namespace Text.[] = none
namespace (Text.◌∷◌ c s) =
    let rest = namespace s in
    if code c == 125
    then some (Text.◌∷◌ c Text.[])
    else elim rest [ none ↦ none | some ns ↦ some (Text.◌∷◌ c ns) ]

-- The loop over the tags, each after a prefix.
abbrev pub find_one : String → List String → Elements → Option Element
find_one ns [] children = none
find_one ns (tag ∷ tags) children =
    let rest = find_one ns tags children in
    elim (first_of (with_tag (Text.◌++◌ ns tag) children)) [ some e ↦ some e | none ↦ rest ]

unfoldable pub find_el : Element → List String → Option Element
unfolding namespace
find_el parent tag_candidates = elim (find_one "" tag_candidates (children_of parent)) [
  | some e ↦ some e
  | none ↦ elim (namespace (tag_of parent)) [
    | none ↦ none
    | some ns ↦ find_one ns tag_candidates (children_of parent)
  ]
]

unfoldable pub findall_el : Element → String → List Element
unfolding namespace
findall_el parent tag = elim (with_tag tag (children_of parent)) [
  | e ∷ es ↦ e ∷ es
  | [] ↦ elim (namespace (tag_of parent)) [
    | none ↦ []
    | some ns ↦ with_tag (Text.◌++◌ ns tag) (children_of parent)
  ]
]

unfoldable pub text_of : Option Element → String
unfolding strip
text_of none = ""
text_of (some (node tag attributes text children)) = strip text

-- A rule: name, kind, content and type of device.
pub record Rule : Type 0 where
  pub name : String
  pub rule_type : String
  pub rule_content : String
  pub device_type : Option String

-- The content of a policy that is written as attributes, empty for none.
abbrev pub content_of : Element → String
content_of pol =
    or_text (attribute "rule_content" pol)
      (or_text (attribute "RuleContent" pol) (or_text (attribute "SimplePatternText" pol) ""))

-- `pol.get("device_type") or pol.get("DeviceType")`.
abbrev pub device_type_of : Element → Option String
device_type_of pol = elim (attribute "device_type" pol) [
  | none ↦ attribute "DeviceType" pol
  | some d ↦ if str_eq d "" then attribute "DeviceType" pol else some d
]

abbrev pub simple_rule : Element → Rule
simple_rule pol = record {
  name = or_text (attribute "name" pol) (or_text (attribute "Name" pol) "策略");
  rule_type =
      or_text (attribute "rule_type" pol) (or_text (attribute "RuleType" pol) "must_contain");
  rule_content = content_of pol;
  device_type = device_type_of pol;
}

-- The loop over the rules of a policy that has its own; one without a text is passed over.
unfoldable pub pattern_rules : List Element → List Rule
unfolding find_el text_of lower is_part
pattern_rules [] = []
pattern_rules (rule ∷ rules) =
    let rest = pattern_rules rules in
    let simple_text = text_of (find_el rule ("SimplePatternText" ∷ [])) in
    let pattern_type = lower (text_of (find_el rule ("PatternType" ∷ []))) in
    if str_eq simple_text ""
    then rest
    else record {
      name = or_text (some (text_of (find_el rule ("RuleName" ∷ [])))) (clip 50 simple_text);
      rule_type = if is_part "regex" pattern_type then "regex" else "must_contain";
      rule_content = simple_text;
      device_type = none;
    }
      ∷ rest

unfoldable pub rules_of : List Element → List Rule
unfolding find_el findall_el pattern_rules
rules_of [] = []
rules_of (pol ∷ pols) =
    let rest = rules_of pols in
    if not (str_eq (content_of pol) "")
    then simple_rule pol ∷ rest
    else elim (find_el pol ("AssignedPolicyRules" ∷ [])) [
      | none ↦ rest
      | some rules_el ↦ pattern_rules (findall_el rules_el "PolicyRule") ++ rest
    ]

unfoldable pub parse_report_policies_from_root : Element → List Rule
unfolding find_el findall_el rules_of
parse_report_policies_from_root root =
    elim (find_el root ("AssignedPolicies" ∷ "AssignedPolicy" ∷ [])) [
      | none ↦ []
      | some assn ↦ rules_of (findall_el assn "Policy")
    ]

-- `x or ""`.
abbrev pub text_or : Option String → String
text_or o = get_or o ""

abbrev pub policy_element : Policy → Element
policy_element p =
    node "Policy"
      (("name", p.name)
        ∷ ("rule_type", p.rule_type)
        ∷ ("rule_content", clip 500 p.rule_content)
        ∷ ("device_type", text_or p.device_type)
        ∷ [])
      "" end

abbrev pub policy_elements : List Policy → Elements
policy_elements [] = end
policy_elements (p ∷ ps) = child (policy_element p) (policy_elements ps)

-- The document of a report.
unfoldable pub report_root : Report → List Policy → Element
unfolding strip
report_root r policies =
    node "PolicyReport"
      (("name", r.name)
        ∷ ("group", text_or r.group)
        ∷ ("device_type", text_or r.device_type)
        ∷ ("enabled", if r.enabled then "true" else "false")
        ∷ [])
      ""
      (child (node "Comments" [] (strip (text_or r.comments)) end)
        (child (node "AssignedPolicies" [] "" (policy_elements policies)) end))

-- The policies that the report links, disabled ones included, in the order of the table.
unfoldable pub exported_policies : ℕ → Db → List Policy
unfolding linked_ids
exported_policies report_id db = select (is_in (linked_ids report_id db)) db.policies

unfoldable pub export_compliance_report_xml : (Element → String) → ℕ → Db → Result Failure String
unfolding report_root exported_policies
export_compliance_report_xml print report_id db = elim (find_report report_id db) [
  | none ↦ err not_found
  | some r ↦ ok (print (report_root r (exported_policies report_id db)))
]

abbrev some_text : String → Option String
some_text s = if str_eq s "" then none else some s

-- The report of a document.
unfoldable pub report_of : Element → ℕ → Report
unfolding find_el text_of lower
report_of root id = record {
  id = id;
  name = or_text (attribute "name" root) (
      or_text (attribute "Name" root)
        (or_text (some (text_of (find_el root ("Name" ∷ [])))) "导入报告"));
  group = some_text (
      or_text (attribute "group" root)
        (or_text (attribute "Group" root) (text_of (find_el root ("Group" ∷ [])))));
  comments = some_text (text_of (find_el root ("Comments" ∷ [])));
  device_type = some_text (
      or_text (attribute "device_type" root)
        (or_text (attribute "DeviceType" root) (text_of (find_el root ("DeviceType" ∷ [])))));
  enabled =
      let status = lower (
        or_text (attribute "enabled" root)
          (or_text (some (text_of (find_el root ("ReportStatus" ∷ [])))) "true")) in
      str_eq status "true" || str_eq status "enabled";
}

abbrev pub policy_of : ℕ → Rule → Policy
policy_of id rule = record {
  id = id;
  name = rule.name;
  rule_type = rule.rule_type;
  rule_content = rule.rule_content;
  device_type = rule.device_type;
  description = none;
  group = none;
  enabled = true;
}

-- The loop that adds the policies, with their keys.
unfoldable pub add_rules : List Rule → Db → List ℕ × Db
add_rules [] db = ([], db)
add_rules (rule ∷ rules) db =
    let rest = add_rules rules (record db {
      policies = db.policies ++ policy_of db.next_policy rule ∷ [];
      next_policy = suc db.next_policy;
    }) in
    (db.next_policy ∷ rest.0, rest.1)

abbrev pub with_report : Element → Db → Db
with_report root db = record db {
  reports = db.reports ++ report_of root db.next_report ∷ [];
  next_report = suc db.next_report;
}

-- `parse` is `ET.fromstring`, `none` its `ParseError`.
unfoldable pub import_compliance_report_xml :
    (String → Option Element) → String → Db → Result Failure Db
unfolding parse_report_policies_from_root report_of add_rules add_links
import_compliance_report_xml parse content db = elim (parse content) [
  | none ↦ err bad_request
  | some root ↦
      let added = add_rules (parse_report_policies_from_root root) (with_report root db) in
      add_links db.next_report 0 added.0 added.1
]
