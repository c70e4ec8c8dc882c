-- ===== src/Process/Definitions/Deleted.antt =====
-- What a deletion leaves reachable.
use net_soc_ops.Prelude.{
  ℕ, String, sym, ◌≡◌, refl, inl, inr, Bool, false, ◌&&◌, none, some, List, [], ◌∷◌, any, find,
  update, find-update-none, str_eq, arith, Bool-cases,
}
use net_soc_ops.Prelude.Results.{Result, ok, err, ok-inj}
use net_soc_ops.Process.Store.{ProcessDefinition, Db, Json}
use net_soc_ops.Process.Definitions.{
  Failure, not_found, is_live, live_row, update_live, ProcessDefinitionUpdate,
  get_process_definition, update_process_definition, delete_process_definition,
  disable_process_definition,
}

find-none-any {ℓ} : {A : Type ℓ} (p : A → Bool) (xs : List A) → find p xs ≡ none → any p xs ≡ false
find-none-any p [] h = refl
find-none-any p (x ∷ xs) h = ground (arith, find-none-any p xs)

update_live-refuses :
    (process_id : String) (f : ProcessDefinition → ProcessDefinition) (db : Db)
    → live_row process_id db ≡ none
    → update_live process_id f db ≡ err not_found
unfolding update_live live_row
update_live-refuses process_id f db gone =
    rw (find-none-any (is_live process_id) db.process_definitions gone)

hidden : (b : Bool) → b && false ≡ false
hidden b = ground arith

deleted-live_row :
    (now : ℕ) (process_id : String) (db db' : Db)
    → delete_process_definition now process_id db ≡ ok db'
    → live_row process_id db' ≡ none
unfolding delete_process_definition update_live live_row
deleted-live_row now process_id db db' h =
    elim (Bool-cases (any (is_live process_id) db.process_definitions)) [
      | inr e ↦ cc (rw e at h)
      | inl e ↦ from_rows (rw e at h)
    ]
  where
    from_rows :
        ◌≡◌ {A = Result Failure Db}
          (ok record db {
            process_definitions =
                update
                  (is_live process_id)
                  (λ p. record p { deleted_at = some now })
                  db.process_definitions;
          })
          (ok db')
        → find (is_live process_id) db'.process_definitions ≡ none
    from_rows k = rw (sym (ok-inj _ db' k)) (
        find-update-none (is_live process_id) (λ p. record p { deleted_at = some now })
          db.process_definitions (λ x. hidden (str_eq x.id process_id)))

-- Once a process is deleted, it is not found, and neither an update nor a second deletion nor a
-- disabling reaches it.
pub delete-IsGone :
    (json : Json) (now later : ℕ) (version_id username process_id : String)
    (process : ProcessDefinitionUpdate) (db db' : Db)
    → delete_process_definition now process_id db ≡ ok db'
    → (get_process_definition process_id db' ≡ err not_found)
      × (update_process_definition json later version_id username process_id process db'
          ≡ err not_found)
      × (delete_process_definition later process_id db' ≡ err not_found)
      × (disable_process_definition later process_id db' ≡ err not_found)
unfolding get_process_definition update_process_definition delete_process_definition
    disable_process_definition
delete-IsGone json now later version_id username process_id process db db' h =
    let gone = deleted-live_row now process_id db db' h in
    (
      rw (gone, get_process_definition),
      rw (gone, update_process_definition),
      update_live-refuses process_id _ db' gone,
      update_live-refuses process_id _ db' gone,
    )
