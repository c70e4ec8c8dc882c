-- ===== src/Process/Definitions/History.antt =====
-- The versions of a process under updates.
use net_soc_ops.Prelude.{
  ℕ, ◌+◌, String, ◌≡◌, refl, true, not, ◌||◌, ltb, some, List, [], ◌∷◌, ◌++◌, All, All-append,
  find-narrow, find_sound, update, find-update, str_eq, arith,
}
use net_soc_ops.Prelude.Results.{ok}
use net_soc_ops.Process.Store.{ProcessDefinition, ProcessDefinitionVersion, Db, Json}
use net_soc_ops.Process.Definitions.{
  row_of, is_live, live_row, ProcessDefinitionUpdate, update_process_definition, snapshot, updated,
}

live_row-row_of :
    (process_id : String) (p : ProcessDefinition) (db : Db)
    → row_of process_id db ≡ some p
    → is_live process_id p ≡ true
    → live_row process_id db ≡ some p
unfolding live_row
live_row-row_of process_id p db found live =
    find-narrow (λ x. str_eq x.id process_id) (is_live process_id) db.process_definitions p
      (λ x h. ground arith) live found

module _ (json : Json) (now : ℕ) (version_id username process_id : String)
    (process : ProcessDefinitionUpdate) (db : Db) where
  -- The state that an update of a live row leaves.
  abbrev after_update : ProcessDefinition → Db
  after_update ep = record db {
    process_definition_versions =
        db.process_definition_versions ++ snapshot json now version_id username ep ∷ [];
    process_definitions =
        update (λ p. str_eq p.id process_id) (updated now username process) db.process_definitions;
  }

  update-runs :
      (ep : ProcessDefinition)
      → live_row process_id db ≡ some ep
      → update_process_definition json now version_id username process_id process db
        ≡ ok (after_update ep)
  unfolding update_process_definition
  update-runs ep found = rw (found, update_process_definition)

  row_of-after_update :
      (ep : ProcessDefinition)
      → row_of process_id db ≡ some ep
      → row_of process_id (after_update ep) ≡ some (updated now username process ep)
  unfolding updated
  row_of-after_update ep found =
      find-update (λ p. str_eq p.id process_id) (λ p. str_eq p.id process_id)
        (updated now username process) db.process_definitions ep (λ x. refl)
        (find_sound (λ p. str_eq p.id process_id) db.process_definitions ep found) found

-- The versions of a process all have numbers below a given one.
abbrev pub AreBelow : String → ℕ → Db → Type 0
AreBelow process_id version db =
    All (λ v. not (str_eq v.process_id process_id) || ltb v.version version ≡ true)
      db.process_definition_versions

All-widen :
    (process_id : String) (version : ℕ) (vs : List ProcessDefinitionVersion)
    → All (λ v. not (str_eq v.process_id process_id) || ltb v.version version ≡ true) vs
    → All (λ v. not (str_eq v.process_id process_id) || ltb v.version (version + 1) ≡ true) vs
All-widen process_id version [] h = tt
All-widen process_id version (v ∷ vs) (h, hs) = (ground arith, All-widen process_id version vs hs)

-- Updates number the versions of a process upwards: if those that are kept are all below the
-- number of the live process, then an update succeeds and so it is afterwards.
pub update-AreBelow :
    (json : Json) (now : ℕ) (version_id username process_id : String)
    (process : ProcessDefinitionUpdate) (ep : ProcessDefinition) (db : Db)
    → row_of process_id db ≡ some ep
    → is_live process_id ep ≡ true
    → AreBelow process_id ep.version db
    → (after : Db) × (p : ProcessDefinition) × (update_process_definition json now version_id
          username process_id process db
        ≡ ok after)
      × (row_of process_id after ≡ some p)
      × (p.version ≡ ep.version + 1)
      × AreBelow process_id p.version after
unfolding updated snapshot
update-AreBelow json now version_id username process_id process ep db found live below = (
  after_update json now version_id username process_id process db ep,
  updated now username process ep,
  update-runs json now version_id username process_id process db ep
      (live_row-row_of process_id ep db found live),
  row_of-after_update json now version_id username process_id process db ep found,
  refl,
  All-append _ db.process_definition_versions _ (All-widen process_id ep.version _ below)
      (ground arith, tt),
)
