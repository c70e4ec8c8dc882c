-- ===== src/Config/Xml/Read.antt =====
-- An exported report that is imported.
use net_soc_ops.Prelude.{
  ℕ, suc, String, ◌≡◌, refl, ap, ◌∙◌, Bool, true, false, Option, none, some, List, [], ◌∷◌, ◌++◌,
  All, map, any, if◌then◌else◌, str_eq, ◌==◌, ==_iff, arith,
}
use net_soc_ops.Prelude.Results.{ok}
use net_soc_ops.Config.Store.{Policy, Report, Db}
use net_soc_ops.Config.Policies.{clip}
use net_soc_ops.Config.Reports.{find_report, has_policy, add_links}
use net_soc_ops.Config.Xml.{
  Element, node, Rule, namespace, text_or, simple_rule, with_tag, find_el, findall_el, content_of,
  policy_element, policy_elements, rules_of, parse_report_policies_from_root, report_root,
  exported_policies, export_compliance_report_xml, policy_of, add_rules, with_report,
  import_compliance_report_xml,
}

-- A policy whose name, kind and content are not empty, with a content of at most 500 characters,
-- and a type of device that is not empty, if it has one.
abbrev IsGiven : Option String → Type 0
IsGiven none = Unit
IsGiven (some d) = str_eq d "" ≡ false

abbrev pub IsPlain : Policy → Type 0
IsPlain p =
    (str_eq p.name "" ≡ false)
    × (str_eq p.rule_type "" ≡ false)
    × (str_eq p.rule_content "" ≡ false)
    × (clip 500 p.rule_content ≡ p.rule_content)
    × IsGiven p.device_type

abbrev pub rule_of : Policy → Rule
rule_of p = record {
  name = p.name;
  rule_type = p.rule_type;
  rule_content = p.rule_content;
  device_type = p.device_type;
}

with_tag-policies :
    (ps : List Policy) → with_tag "Policy" (policy_elements ps) ≡ map policy_element ps
with_tag-policies [] = refl
with_tag-policies (p ∷ ps) = ap (λ es. policy_element p ∷ es) (with_tag-policies ps)

device_type-given :
    (o : Option String) → IsGiven o → (if str_eq (text_or o) "" then none else some (text_or o)) ≡ o
device_type-given none h = refl
device_type-given (some d) h = rw h refl

simple_rule-policy : (p : Policy) → IsPlain p → simple_rule (policy_element p) ≡ rule_of p
simple_rule-policy p (name, kind, content, short, device) = rw short (
    rw content (
      rw name (
        rw kind (
          ap
            (λ d. record {
              name = p.name;
              rule_type = p.rule_type;
              rule_content = p.rule_content;
              device_type = d;
            })
            (device_type-given p.device_type device)))))

rules_of-policies :
    (ps : List Policy) → All IsPlain ps → rules_of (map policy_element ps) ≡ map rule_of ps
unfolding rules_of
rules_of-policies [] h = refl
rules_of-policies (p ∷ ps) ((name, kind, content, short, device), h) =
    let full : str_eq (content_of (policy_element p)) "" ≡ false = rw short (rw content content) in
    rw full (
      ap (λ x. x ∷ rules_of (map policy_element ps))
        (simple_rule-policy p (name, kind, content, short, device))
      ∙ ap (λ rs. rule_of p ∷ rs) (rules_of-policies ps h))

-- The policies that are read from the document of a report are those of the report.
findall-policies :
    (ps : List Policy)
    → findall_el (node "AssignedPolicies" [] "" (policy_elements ps)) "Policy"
      ≡ map policy_element ps
unfolding findall_el namespace
findall-policies [] = refl
findall-policies (p ∷ ps) = ap (λ es. policy_element p ∷ es) (with_tag-policies ps)

parse-report_root :
    (r : Report) (ps : List Policy)
    → All IsPlain ps
    → parse_report_policies_from_root (report_root r ps) ≡ map rule_of ps
unfolding parse_report_policies_from_root report_root find_el
parse-report_root r ps h = ap rules_of (findall-policies ps) ∙ rules_of-policies ps h

-- The rows of rules, with keys from one on.
abbrev pub numbered : ℕ → List Rule → List Policy
numbered id [] = []
numbered id (rule ∷ rules) = policy_of id rule ∷ numbered (suc id) rules

append_cons :
    (ps : List Policy) (p : Policy) (new : List Policy) → (ps ++ p ∷ []) ++ new ≡ ps ++ p ∷ new
append_cons [] p new = refl
append_cons (x ∷ ps) p new = ap (λ y. x ∷ y) (append_cons ps p new)

append_nil : (ps : List Policy) → ps ≡ ps ++ []
append_nil [] = refl
append_nil (p ∷ ps) = ap (λ x. p ∷ x) (append_nil ps)

add_rules-policies :
    (rules : List Rule) (db : Db)
    → (add_rules rules db).1.policies ≡ db.policies ++ numbered db.next_policy rules
unfolding add_rules
add_rules-policies [] db = append_nil db.policies
add_rules-policies (rule ∷ rules) db =
    add_rules-policies rules _ ∙ append_cons db.policies (policy_of db.next_policy rule) _

any-append : (p : Policy → Bool) (ps new : List Policy) → any p ps ≡ true → any p (ps ++ new) ≡ true
any-append p [] new h = cc
any-append p (x ∷ ps) new h = ground (arith, any-append p ps new)

any-last :
    (p : Policy → Bool) (ps : List Policy) (x : Policy) → p x ≡ true → any p (ps ++ x ∷ []) ≡ true
any-last p [] x h = rw h refl
any-last p (y ∷ ps) x h = ground (arith, any-last p ps x h)

add_rules-has :
    (rules : List Rule) (db : Db) (id : ℕ)
    → has_policy db id ≡ true
    → has_policy (add_rules rules db).1 id ≡ true
add_rules-has rules db id h =
    rw (add_rules-policies rules db) (any-append (λ p. p.id == id) db.policies _ h)

add_rules-AreThere :
    (rules : List Rule) (db : Db)
    → All (λ id. has_policy (add_rules rules db).1 id ≡ true) (add_rules rules db).0
unfolding add_rules
add_rules-AreThere [] db = tt
add_rules-AreThere (rule ∷ rules) db = (
  add_rules-has rules _ db.next_policy (
      any-last (λ p. p.id == db.next_policy) db.policies (policy_of db.next_policy rule)
        ((==_iff db.next_policy db.next_policy).1 refl)),
  add_rules-AreThere rules _,
)

-- Links to policies that exist are added, and the policies stay.
add_links-policies :
    (report_id i : ℕ) (ids : List ℕ) (db : Db)
    → All (λ id. has_policy db id ≡ true) ids
    → (db' : Db) × (add_links report_id i ids db ≡ ok db') × (db'.policies ≡ db.policies)
unfolding add_links
add_links-policies report_id i [] db h = (db, refl, refl)
add_links-policies report_id i (id ∷ ids) db (there, h) =
    rw there (add_links-policies report_id (suc i) ids _ h)

-- If a report exists and its export is parsed back to the document that was printed, the import of
-- the export succeeds, and adds exactly the policies that the report links, in the order of the
-- table: each with its name, kind, content and type of device, enabled, and under a new key. The
-- policies must have a name, a kind, a content of 1 to 500 characters, and no empty type of device.
pub import-export :
    (print : Element → String) (parse : String → Option Element) (report_id : ℕ) (report : Report)
    (db : Db)
    → find_report report_id db ≡ some report
    → (let root = report_root report (exported_policies report_id db) in
        parse (print root) ≡ some root)
    → All IsPlain (exported_policies report_id db)
    → (text : String) × (db' : Db) × (export_compliance_report_xml print report_id db ≡ ok text)
      × (import_compliance_report_xml parse text db ≡ ok db')
      × (db'.policies
          ≡ db.policies ++ numbered db.next_policy (map rule_of (exported_policies report_id db)))
unfolding export_compliance_report_xml import_compliance_report_xml
import-export print parse report_id report db found back plain =
    let exported = exported_policies report_id db in
    let root = report_root report exported in
    let rules = parse_report_policies_from_root root in
    let added = add_rules rules (with_report root db) in
    let (db', linked, same) =
      add_links-policies db.next_report 0 added.0 added.1
        (add_rules-AreThere rules (with_report root db)) in
    (
      print root,
      db',
      rw (found, export_compliance_report_xml) refl,
      rw (back, import_compliance_report_xml) linked,
      same
          ∙ (add_rules-policies rules (with_report root db)
              ∙ ap (λ rs. db.policies ++ numbered db.next_policy rs)
                  (parse-report_root report exported plain)),
    )
