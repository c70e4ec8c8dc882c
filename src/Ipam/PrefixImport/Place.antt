-- ===== src/Ipam/PrefixImport/Place.antt =====
-- What it means for a prefix to lie in the aggregate that it names.
use net_soc_ops.Prelude.{
  ℕ, String, ◌≡◌, refl, ap, sym, ◌∙◌, inl, inr, Bool, true, false, Option, none, some, List, [],
  ◌∷◌, All, Bool-cases, Option-cases, elem, strip, str_eq, eq_iff,
}
use net_soc_ops.Prelude.Results.{ok, ◌>>=◌, >>=-eq-ok, Result-cases}
use net_soc_ops.Ipam.Network.{Network, subnet_of}
use net_soc_ops.Ipam.Store.{NetText, Aggregate, Prefix, Db}
use net_soc_ops.Ipam.CsvImport.{has_norm}
use net_soc_ops.Ipam.Validators.{
  validate_cidr_format, aggregate_by_id, check_prefix_in_aggregate, require_subnet, network_or_fail,
}
use net_soc_ops.Ipam.PrefixImport.{allowed_prefix_status}

require_subnet-ok : (r : Option Bool) → require_subnet r ≡ ok tt → r ≡ some true
require_subnet-ok none h = cc
require_subnet-ok (some true) h = refl
require_subnet-ok (some false) h = cc

module _ (t : NetText) where
  -- The network of the text lies in that of the aggregate with the key `id`.
  pub record LiesIn (db : Db) (prefix : String) (id : ℕ) : Type 0 where
    pub agg : Aggregate
    pub found : aggregate_by_id db id ≡ some agg
    pub net : Network
    pub parsed : t.parse (strip prefix) ≡ some net
    pub agg_net : Network
    pub agg_parsed : t.parse agg.prefix ≡ some agg_net
    pub inside : subnet_of net agg_net ≡ some true

  -- Without an aggregate there is nothing to lie in.
  abbrev pub LiesInOption : Db → String → Option ℕ → Type 0
  LiesInOption db prefix none = Unit
  LiesInOption db prefix (some id) = LiesIn db prefix id

  pub record IsPlaced (db : Db) (p : Prefix) : Type 0 where
    pub status : elem p.status allowed_prefix_status ≡ true
    pub place : LiesInOption db p.prefix p.aggregate_id

  abbrev pub ArePlaced : Db → Type 0
  ArePlaced db = All (IsPlaced db) db.prefixes

  network_or_fail-ok : (s : String) (n : Network) → network_or_fail t s ≡ ok n → t.parse s ≡ some n
  network_or_fail-ok s n h = elim (Option-cases (t.parse s)) [
    | inl bad ↦ cc (rw (bad, network_or_fail) at h)
    | inr (m, good) ↦ good ∙ cc (rw (good, network_or_fail) at h)
  ]

  -- What passes the check lies in the aggregate.
  pub check-LiesIn :
      (db : Db) (prefix : String) (id : ℕ)
      → check_prefix_in_aggregate t db prefix (some id) ≡ ok tt
      → LiesIn db prefix id
  unfolding check_prefix_in_aggregate
  check-LiesIn db prefix id h = elim (Option-cases (aggregate_by_id db id)) [
    | inl e ↦ cc (rw (e, check_prefix_in_aggregate) at h)
    | inr (agg, found) ↦
        let h1 = rw (found, check_prefix_in_aggregate) at h in
        elim (Bool-cases (str_eq agg.prefix "")) [
          | inl e ↦ cc (rw e at h1)
          | inr e ↦
              let h2 = rw e at h1 in
              let (net, net_read, h3) =
                >>=-eq-ok (network_or_fail t (strip prefix))
                  (λ n. network_or_fail t agg.prefix >>= λ a. require_subnet (subnet_of n a)) h2 in
              let (agg_net, agg_read, h4) =
                >>=-eq-ok (network_or_fail t agg.prefix) (λ a. require_subnet (subnet_of net a))
                  h3 in
              record {
                agg = agg;
                found = found;
                net = net;
                parsed = network_or_fail-ok (strip prefix) net net_read;
                agg_net = agg_net;
                agg_parsed = network_or_fail-ok agg.prefix agg_net agg_read;
                inside = require_subnet-ok (subnet_of net agg_net) h4;
              }
        ]
  ]

  -- A normalised text is the print of the network that was read.
  pub validate-print :
      (cidr norm : String)
      → validate_cidr_format t cidr ≡ ok norm
      → (net : Network) × (t.parse (strip cidr) ≡ some net) × (norm ≡ t.print net)
  unfolding validate_cidr_format
  validate-print cidr norm h = elim (Bool-cases (str_eq (strip cidr) "")) [
    | inl e ↦ cc (rw e at h)
    | inr e ↦
        let h1 = rw e at h in
        elim (Option-cases (t.parse (strip cidr))) [
          | inl bad ↦ cc (rw bad at h1)
          | inr (net, parsed) ↦ (net, parsed, cc (rw parsed at h1))
        ]
  ]

  -- A row that is found by the normalised text has its network.
  pub has_norm-LiesIn :
      (db : Db) (norm prefix : String) (id : ℕ)
      → has_norm t norm prefix ≡ true
      → LiesIn db norm id
      → LiesIn db prefix id
  has_norm-LiesIn db norm prefix id h l = elim (Bool-cases (str_eq prefix "")) [
    | inl e ↦ cc (rw e at h)
    | inr e ↦
        let h1 = rw e at h in
        elim (Result-cases (validate_cidr_format t prefix)) [
          | inl (p, bad) ↦ cc (rw bad at h1)
          | inr (s, good) ↦
              let same : s ≡ norm = (eq_iff s norm).0 (rw good at h1) in
              let (net, parsed, printed) = validate-print prefix s good in
              let back : some net ≡ some l.net =
                sym (t.parse-print net (t.parse-IsNetwork (strip prefix) net parsed))
                ∙ ap t.parse (sym (t.strip-print net))
                ∙ ap (λ x. t.parse (strip x)) (sym printed ∙ same)
                ∙ l.parsed in
              record {
                agg = l.agg;
                found = l.found;
                net = l.net;
                parsed = parsed ∙ back;
                agg_net = l.agg_net;
                agg_parsed = l.agg_parsed;
                inside = l.inside;
              }
        ]
  ]

  -- The place of a row depends on the aggregates alone.
  pub LiesInOption-transfer :
      (db db' : Db) (prefix : String) (id : Option ℕ)
      → db.aggregates ≡ db'.aggregates
      → LiesInOption db prefix id
      → LiesInOption db' prefix id
  LiesInOption-transfer db db' prefix none same l = tt
  LiesInOption-transfer db db' prefix (some id) same l = record {
    agg = l.agg;
    found = rw (← same) l.found;
    net = l.net;
    parsed = l.parsed;
    agg_net = l.agg_net;
    agg_parsed = l.agg_parsed;
    inside = l.inside;
  }

  pub IsPlaced-transfer :
      (db db' : Db)
      → db.aggregates ≡ db'.aggregates
      → (ps : List Prefix) → All (IsPlaced db) ps
      → All (IsPlaced db') ps
  IsPlaced-transfer db db' same [] h = tt
  IsPlaced-transfer db db' same (p ∷ ps) (k, h) = (
    record {
      status = k.status;
      place = LiesInOption-transfer db db' p.prefix p.aggregate_id same k.place;
    },
    IsPlaced-transfer db db' same ps h,
  )

  pub has_norm-LiesInOption :
      (db : Db) (norm prefix : String) (id : Option ℕ)
      → has_norm t norm prefix ≡ true
      → LiesInOption db norm id
      → LiesInOption db prefix id
  has_norm-LiesInOption db norm prefix none h l = tt
  has_norm-LiesInOption db norm prefix (some id) h l = has_norm-LiesIn db norm prefix id h l

  pub check-LiesInOption :
      (db : Db) (norm : String) (id : Option ℕ)
      → check_prefix_in_aggregate t db norm id ≡ ok tt
      → LiesInOption db norm id
  check-LiesInOption db norm none h = tt
  check-LiesInOption db norm (some id) h = check-LiesIn db norm id h
