-- ===== src/Signer/Setup/Accounts.antt =====
-- A module that accounts for its sessions, and the calls of setup that keep them.
use gopkcs.Prelude.{ℕ, ◌≡◌, refl, ◌∙◌, Bool, List, [], ◌∷◌, ◌==◌, if◌then◌else◌}
use gopkcs.Machine.Effects.{Error}
use gopkcs.Signer.Interface.{Ret, ok, err, Act, and_then, ◌>>=◌, wrapping, Attr, Module, Key}
use gopkcs.Signer.Setup.{
  finish_find, find_object, get_public_key_id, id_of, get_private_key, public_template, lift,
  first_value,
}

abbrev pub remove : ℕ → List ℕ → List ℕ
remove s [] = []
remove s (x ∷ xs) = if x == s then xs else x ∷ remove s xs

-- A call leaves the open sessions as they are.
abbrev pub Keeps : {T A : Type 0} → (T → List ℕ) → Act T A → Type 0
Keeps {T} held act = (t : T) → held (act t).1 ≡ held t

-- `held t` are the sessions that the application has open. C_OpenSession adds the one that it
-- returns, C_CloseSession of an open session ends it, and no other call has to do with sessions.
pub record Accounts {T : Type 0} (m : Module T) (held : T → List ℕ) : Type 0 where
  pub opens :
      (slot flags : ℕ) (t : T) (s : ℕ) (t' : T)
      → m.open_session slot flags t ≡ (ok s, t')
      → held t' ≡ s ∷ held t
  pub open_fails :
      (slot flags : ℕ) (t : T) (e : Error) (t' : T)
      → m.open_session slot flags t ≡ (err e, t')
      → held t' ≡ held t
  pub closes : (s : ℕ) (t : T) → held (m.close_session s t).1 ≡ remove s (held t)
  pub final_keeps : (s : ℕ) → Keeps held (m.find_objects_final s)
  pub init_keeps : (s : ℕ) (a : List Attr) → Keeps held (m.find_objects_init s a)
  pub find_keeps : (s n : ℕ) → Keeps held (m.find_objects s n)
  pub attribute_keeps : (s o : ℕ) (a : List Attr) → Keeps held (m.get_attribute_value s o a)
  pub slots_keep : (b : Bool) → Keeps held (m.get_slot_list b)
  pub info_keeps : (slot : ℕ) → Keeps held (m.get_token_info slot)
  pub login_keeps : (s u : ℕ) (p : List ℕ) → Keeps held (m.login s u p)

module _ {T : Type 0} (held : T → List ℕ) where
  and_then-held :
      {A B : Type 0} (r : Ret A × T) (f : A → Act T B)
      → ((x : A) → Keeps held (f x))
      → held (and_then r f).1 ≡ held r.1
  and_then-held (ok a, t) f k = k a t
  and_then-held (err e, t) f k = refl

  bind-Keeps :
      {A B : Type 0} (a : Act T A) (f : A → Act T B)
      → Keeps held a
      → ((x : A) → Keeps held (f x))
      → Keeps held (a >>= f)
  bind-Keeps a f h k t = and_then-held (a t) f k ∙ h t

module _ {T : Type 0} (m : Module T) (held : T → List ℕ) (accounts : Accounts m held) where
  open accounts use {
    opens, open_fails, closes, final_keeps, init_keeps, find_keeps, attribute_keeps, slots_keep,
    info_keeps, login_keeps,
  }

  finish_find-Keeps : (session : ℕ) (r : Ret (List ℕ × Bool)) → Keeps held (finish_find m session r)
  unfolding finish_find
  finish_find-Keeps session (err e) = final_keeps session
  finish_find-Keeps session (ok ([], more)) =
      bind-Keeps held (wrapping "pkcs11key: FindObjectsFinal" (m.find_objects_final session)) _
        (final_keeps session) (λ x t. refl)
  finish_find-Keeps session (ok (obj ∷ objs, more)) =
      bind-Keeps held (wrapping "pkcs11key: FindObjectsFinal" (m.find_objects_final session)) _
        (final_keeps session) (λ x t. refl)

  find_object-Keeps : (session : ℕ) (a : List Attr) → Keeps held (find_object m session a)
  unfolding find_object
  find_object-Keeps session a =
      bind-Keeps held (wrapping "pkcs11key: FindObjectsInit" (m.find_objects_init session a)) _
        (init_keeps session a)
        (λ x t.
          finish_find-Keeps session (m.find_objects session 1 t).0 (m.find_objects session 1 t).1
          ∙ find_keeps session 1 t)

  id_of-Keeps : (v : List ℕ) → Keeps held (id_of m v)
  unfolding id_of
  id_of-Keeps [] t = refl
  id_of-Keeps (b ∷ v) t = refl

  pub get_public_key_id-Keeps : (k : Key) (session : ℕ) → Keeps held (get_public_key_id m k session)
  unfolding get_public_key_id
  get_public_key_id-Keeps k session =
      bind-Keeps held (lift m (public_template k.public_key)) _ (λ t. refl)
        λ template.
          bind-Keeps held
            (wrapping "pkcs11key: public key not found on token" (find_object m session template)) _
            (find_object-Keeps session template)
            λ obj.
              bind-Keeps held
                (wrapping "pkcs11key: GetAttributeValue CKA_ID"
                  (m.get_attribute_value session obj _))
                _ (attribute_keeps session obj _) (λ attrs. id_of-Keeps (first_value attrs))

  pub get_private_key-Keeps :
      (k : Key) (session : ℕ) (id : List ℕ) → Keeps held (get_private_key m k session id)
  unfolding get_private_key
  get_private_key-Keeps k session id =
      bind-Keeps held (wrapping "pkcs11key: private key not found" (find_object m session _)) _
        (find_object-Keeps session _)
        λ obj. bind-Keeps held _ _ (λ t. attribute_keeps session obj _ t) (λ auth t. refl)
