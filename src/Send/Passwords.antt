-- ===== src/Send/Passwords.antt =====
-- The passwords of send links.
use drive_server_wip.Prelude.{
  ℕ, suc, ◌≡◌, ◌≢◌, refl, sym, ap, ◌∙◌, String, Bool, true, not, Option, none, some, List, arith,
  is_some, ==_ne, Option-cases, inl, inr,
}
use drive_server_wip.Prelude.Outcome.{err, ok, forbidden, throw_if}
use drive_server_wip.Prelude.Outcome.Steps.{
  gets-then, modify-then, returns-then, value-of_eq, bind-of_ok,
}
use drive_server_wip.Send.{
  LinkId, SendLink, SendLinkItemDto, Store, has_password, is_protected, hash_password,
  deterministic_encryption, create_send_link_with_items, create_send_links, differ, check_password,
  unlock_link,
}

-- A block cipher makes different texts of one text with different vectors.
abbrev pub IsVectored : (ℕ → String → Option ℕ) → Type 0
IsVectored seal =
    (v w : ℕ) (text : String) (c : ℕ) → seal v text ≡ some c → seal w text ≡ some c → v ≡ w

module _ (validate : LinkId → Bool) (seal : ℕ → String → Option ℕ) where
  create_send_links-then :
      (user : Option ℕ) (items : List SendLinkItemDto) (sender : Option String) (password : String)
      (s : Store) {link : SendLink} {s' : Store}
      → has_password (some password) ≡ true
      → create_send_links validate seal user items sender (some password) s ≡ (ok link, s')
      → link.hashed_password ≡ seal s.random password
  unfolding create_send_links hash_password deterministic_encryption create_send_link_with_items
  create_send_links-then user items sender password s given e =
      returns-then _ _ {s = s} {s1 = record s { random = suc s.random }}
        {a = seal s.random password} (rw given refl) e
        λ e. gets-then _ _ e λ e. modify-then _ _ e λ e.
          modify-then _ _ e
            λ e. modify-then _ _ e λ e. ap (λ l. l.hashed_password) (sym (value-of_eq e))

  other_code :
      (v w : ℕ) (password : String) (c : ℕ)
      → IsVectored seal
      → seal v password ≡ some c
      → v ≢ w
      → differ validate seal (some c) (seal w password) ≡ true
  other_code v w password c vectored e apart = go (seal w password) refl
    where
      go : (o : Option ℕ) → seal w password ≡ o → differ validate seal (some c) o ≡ true
      go none e' = refl
      go (some d) e' =
          ap not (==_ne c d (λ same. apart (vectored v w password c e (e' ∙ ap some (sym same)))))

  check_password-refuses :
      (link : SendLink) (password : String) (t : Store) (c : ℕ)
      → link.hashed_password ≡ some c
      → differ validate seal (some c) (seal t.random password) ≡ true
      → (check_password validate seal link password t).0 ≡ err (forbidden "Invalid password")
  unfolding check_password deterministic_encryption
  check_password-refuses link password t c hashed other =
      ap (λ o. o.0)
        (bind-of_ok (deterministic_encryption validate seal password) _ {s = t} refl
          ∙ ap (λ b. throw_if b (forbidden "Invalid password") (record t { random = suc t.random }))
              (ap (λ h. differ validate seal h (seal t.random password)) hashed ∙ other))

  -- A link that is protected by a password is not unlocked by that password, if the vector that is drawn
  -- then is another one than at the creation.
  pub unlock_link-refuses :
      (user : Option ℕ) (items : List SendLinkItemDto) (sender : Option String) (password : String)
      (s t : Store) {link : SendLink} {s' : Store}
      → IsVectored seal
      → has_password (some password) ≡ true
      → create_send_links validate seal user items sender (some password) s ≡ (ok link, s')
      → is_protected link ≡ true
      → s.random ≢ t.random
      → (unlock_link validate seal link (some password) t).0 ≡ err (forbidden "Invalid password")
  unfolding unlock_link is_protected
  unlock_link-refuses user items sender password s t {link} vectored given created protected apart =
      let hashed = create_send_links-then user items sender password s given created in
      elim (Option-cases (seal s.random password)) [
        | inl failed ↦ absurd (ground (arith, ap is_some (hashed ∙ failed)))
        | inr (c, sealed) ↦
            let refused =
              check_password-refuses link password t c (hashed ∙ sealed)
                (other_code s.random t.random password c vectored sealed apart) in
            rw (protected, given) refused
      ]
