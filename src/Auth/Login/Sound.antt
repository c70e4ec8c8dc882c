-- ===== src/Auth/Login/Sound.antt =====
-- Who gets tokens from the login.
use net_soc_ops.Prelude.{
  ℕ, String, ◌≡◌, refl, ap, ◌∙◌, any, none, ◌⊎◌, inl, inr, true, false, some, List, [], ◌∷◌,
  is_some, Bool-cases, Option-cases,
}
use net_soc_ops.Prelude.Results.{Result, ok, err, Result-cases}
use net_soc_ops.Auth.Store.{User, LdapConfig, Db, Crypto}
use net_soc_ops.Auth.Tokens.{get_user}
use net_soc_ops.Auth.Ldap.{
  Directory, Entry, Refusal, refused, broken_session, binds, bind_dn_formats, server_url_of,
  search_filter, bind_as_user, ldap_entry, ldap_authenticate,
}
use net_soc_ops.Auth.Login.{
  Reply, Form, check_second_factor, login_unknown, login_ldap_user, login_local, login,
}

-- Under the first row of the configuration the server answers, its search for the name finds an
-- entry first, and a bind with that entry and the password of the form succeeds.
pub HasBound : Directory → Db → Form → Type 0
HasBound d db form_data =
    (config : LdapConfig) × (more : List LdapConfig) × (entry : Entry) × (others : List Entry)
    × (db.ldap_config ≡ config ∷ more)
    × (d.connect (server_url_of config) ≡ ok tt)
    × (d.search (server_url_of config) config.search_base (search_filter form_data.username)
        ≡ ok (entry ∷ others))
    × (d.simple_bind (server_url_of config) entry.dn form_data.password ≡ ok tt)

rows-cases {ℓ} :
    {A : Type ℓ} (rows : List A) → (rows ≡ []) ⊎ ((row : A) × (more : List A) × (rows ≡ row ∷ more))
rows-cases [] = inl refl
rows-cases (row ∷ more) = inr (row, more, refl)

bound_as :
    (d : Directory) (url password : String) (entry : Entry)
    → bind_as_user d url entry password ≡ none
    → d.simple_bind url entry.dn password ≡ ok tt
unfolding bind_as_user
bound_as d url password entry h = elim (Result-cases (d.simple_bind url entry.dn password)) [
  | inl (e, k) ↦ cc (rw (k, bind_as_user) at h)
  | inr (u, k) ↦ k
]

entry_bound :
    (d : Directory) (config : LdapConfig) (username password : String) (entry : Entry)
    → ldap_entry d config username password ≡ ok entry
    → (e : Entry) × (others : List Entry) × (d.connect (server_url_of config) ≡ ok tt)
      × (d.search (server_url_of config) config.search_base (search_filter username)
          ≡ ok (e ∷ others))
      × (d.simple_bind (server_url_of config) e.dn password ≡ ok tt)
unfolding ldap_entry
entry_bound d config username password entry h =
    let url = server_url_of config in
    elim (Result-cases (d.connect url)) [
      | inl (text, k) ↦ cc (rw (k, ldap_entry) at h)
      | inr (c, k) ↦
          let h1 = rw (k, ldap_entry) at h in
          elim (Bool-cases (
            any (λ dn. binds (d.simple_bind url dn config.bind_password))
              (bind_dn_formats config))) [
                | inr bad ↦ cc (rw bad at h1)
                | inl good ↦
                    let h2 = rw good at h1 in
                    elim (Result-cases (d.search url config.search_base (search_filter username))) [
                      | inl (text, s) ↦ cc (rw s at h2)
                      | inr (entries, s) ↦ elim (rows-cases entries) [
                        | inl nobody ↦ cc (rw nobody at (rw s at h2))
                        | inr (e, others, there) ↦
                            let h3 = rw there at (rw s at h2) in
                            elim (Option-cases (bind_as_user d url e password)) [
                              | inr (message, k3) ↦ cc (rw k3 at h3)
                              | inl bound ↦
                                  (e, others, k, s ∙ ap ok there, bound_as d url password e bound)
                            ]
                      ]
                    ]
              ]
    ]

ldap_authenticate-HasBound :
    (d : Directory) (form_data : Form) (user : User) (db : Db)
    → (ldap_authenticate d form_data.username form_data.password db).0 ≡ ok user
    → HasBound d db form_data
unfolding ldap_authenticate HasBound
ldap_authenticate-HasBound d form_data user db h = elim (rows-cases db.ldap_config) [
  | inl e ↦ cc (rw (e, ldap_authenticate) at h)
  | inr (config, more, e) ↦
      let h' = rw (e, ldap_authenticate) at h in
      elim (Result-cases (ldap_entry d config form_data.username form_data.password)) [
        | inl (message, k) ↦ cc (rw k at h')
        | inr (entry, k) ↦
            let (first, others, reached, found, bound) =
              entry_bound d config form_data.username form_data.password entry k in
            (config, more, first, others, e, reached, found, bound)
      ]
]

outcome-cases :
    (r : Result Refusal User × Db)
    → ((message : String) × (db' : Db) × (r ≡ (err (refused message), db')))
      ⊎ ((db' : Db) × (r ≡ (err broken_session, db')))
      ⊎ ((user : User) × (db' : Db) × (r ≡ (ok user, db')))
outcome-cases (err (refused message), db') = inl (message, db', refl)
outcome-cases (err broken_session, db') = inr (inl (db', refl))
outcome-cases (ok user, db') = inr (inr (user, db', refl))

login_unknown-HasBound :
    (c : Crypto) (d : Directory) (now : ℕ) (token : String) (form_data : Form) (db : Db)
    (answer : Reply)
    → (login_unknown c d now token form_data db).0 ≡ ok answer
    → HasBound d db form_data
unfolding login_unknown
login_unknown-HasBound c d now token form_data db answer h =
    elim (outcome-cases (ldap_authenticate d form_data.username form_data.password db)) [
      | inl (message, db', e) ↦ cc (rw (e, login_unknown) at h)
      | inr (inl (db', e)) ↦ cc (rw (e, login_unknown) at h)
      | inr (inr (user, db', e)) ↦ ldap_authenticate-HasBound d form_data user db (rw e)
    ]

login_ldap_user-HasBound :
    (c : Crypto) (d : Directory) (now : ℕ) (token : String) (form_data : Form) (user : User)
    (db : Db) (answer : Reply)
    → (login_ldap_user c d now token form_data user db).0 ≡ ok answer
    → HasBound d db form_data
unfolding login_ldap_user
login_ldap_user-HasBound c d now token form_data user db answer h =
    elim (outcome-cases (ldap_authenticate d form_data.username form_data.password db)) [
      | inl (message, db', e) ↦ cc (rw (e, login_ldap_user) at h)
      | inr (inl (db', e)) ↦ cc (rw (e, login_ldap_user) at h)
      | inr (inr (u, db', e)) ↦ ldap_authenticate-HasBound d form_data u db (rw e)
    ]

-- What a login rests on: the directory, or the password of the local row, which has not logged in
-- before or has no second factor.
pub IsGrounded : Crypto → Directory → Db → Form → Type 0
IsGrounded c d db form_data =
    HasBound d db form_data
    ⊎ ((user : User) × (get_user db form_data.username ≡ some user)
        × (user.is_ldap_user ≡ false)
        × (c.verify form_data.password user.hashed_password ≡ true)
        × ((is_some user.last_login ≡ false) ⊎ (user.has_2fa ≡ false)))

login_local-IsGrounded :
    (c : Crypto) (d : Directory) (now : ℕ) (token : String) (form_data : Form) (user : User)
    (db : Db) (answer : Reply)
    → get_user db form_data.username ≡ some user
    → user.is_ldap_user ≡ false
    → (login_local c now token form_data user db).0 ≡ ok answer
    → IsGrounded c d db form_data
unfolding login_local check_second_factor IsGrounded
login_local-IsGrounded c d now token form_data user db answer found local h =
    elim (Bool-cases (c.verify form_data.password user.hashed_password)) [
      | inr wrong ↦ cc (rw wrong at h)
      | inl right ↦ elim (Bool-cases (is_some user.last_login)) [
        | inr first ↦ inr (user, found, local, right, inl first)
        | inl before ↦ elim (Bool-cases user.has_2fa) [
          | inr none_set ↦ inr (user, found, local, right, inr none_set)
          | inl enabled ↦
              let h1 = rw right at h in
              let h2 = rw before at h1 in cc (rw (enabled, check_second_factor) at h2)
        ]
      ]
    ]

-- A login that answers, with tokens or with the flag for a second factor, rests on the directory,
-- where under the first row of the configuration the search for the name finds an entry that binds
-- with the password, or on a local row under the name with that password
-- which has never logged in or has no second factor.
pub login-IsGrounded :
    (c : Crypto) (d : Directory) (now : ℕ) (token : String) (form_data : Form) (db : Db)
    (answer : Reply)
    → (login c d now token form_data db).0 ≡ ok answer
    → IsGrounded c d db form_data
unfolding login IsGrounded
login-IsGrounded c d now token form_data db answer h =
    elim (Option-cases (get_user db form_data.username)) [
      | inl e ↦ inl (login_unknown-HasBound c d now token form_data db answer (rw (e, login) at h))
      | inr (user, e) ↦
          let h' = rw (e, login) at h in
          elim (Bool-cases user.is_ldap_user) [
            | inl remote ↦
                inl (
                  login_ldap_user-HasBound c d now token form_data user db answer (rw remote at h'))
            | inr local ↦
                login_local-IsGrounded c d now token form_data user db answer e local
                  (rw local at h')
          ]
    ]
