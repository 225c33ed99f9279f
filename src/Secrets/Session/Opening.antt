-- ===== src/Secrets/Session/Opening.antt =====
-- secrets/mod.rs, `SecretSession::new`: what a session that has been opened is.
use mathlib.Core.Option.{some-injective}
use one_true_pairing.Common.{
  ◌≡◌, refl, sym, ap, ◌∙◌, Bool, true, false, Option, none, some, List, [], ◌∷◌, if◌then◌else◌, inl,
  inr, ◌⊎◌, Option-cases, Bool-cases, arith, subst,
}
use one_true_pairing.Common.Bytes.{Bytes}
use one_true_pairing.Totp.Url.{bytes_eq, ◌>>=◌}
use one_true_pairing.Secrets.Crypto.{
  Primitives, Value, str, other, byte_array, CryptoAlgorithm, plain_crypto, get_name,
  get_session_input, set_session_output,
}
use one_true_pairing.Secrets.Session.{
  Service, SecretSession, try_algorithms, find_collection, unlock_collection, new,
}

impossible : false ≡ true → ⊥
impossible h = ground (arith, h)

-- The collection that has been found: the first one with the label.
pub data FirstLabelled (service : Service) (label : Bytes)
    : List Bytes → Option Bytes → Type 0 where
  found_here :
      (path l : Bytes) (paths : List Bytes)
      → service.collection_label path ≡ some l
      → bytes_eq l label ≡ true
      → FirstLabelled service label (path ∷ paths) (some path)
  unreadable :
      (path : Bytes) (paths : List Bytes)
      → service.collection_label path ≡ none
      → FirstLabelled service label (path ∷ paths) none
  found_later :
      (path l : Bytes) (paths : List Bytes) (r : Option Bytes)
      → service.collection_label path ≡ some l
      → bytes_eq l label ≡ false
      → FirstLabelled service label paths r
      → FirstLabelled service label (path ∷ paths) r
  nowhere : FirstLabelled service label [] none

module _ (primitives : Primitives) (service : Service) where
  find_collection-FirstLabelled :
      (label : Bytes) (paths : List Bytes)
      → FirstLabelled service label paths (find_collection primitives service label paths)
  unfolding find_collection
  find_collection-FirstLabelled label [] = nowhere
  find_collection-FirstLabelled label (path ∷ paths) =
      let ih = find_collection-FirstLabelled label paths in
      elim (Option-cases (service.collection_label path)) [
        | inl e ↦ rw (e, find_collection) (unreadable path paths e)
        | inr (l, e) ↦ elim (Bool-cases (bytes_eq l label)) [
          | inl f ↦ rw (e, find_collection) (rw f (found_here path l paths e f))
          | inr f ↦ rw (e, find_collection) (rw f (found_later path l paths _ e f ih))
        ]
      ]

  -- How the session came to its algorithm.
  pub data Opened (dh_algorithm : CryptoAlgorithm) : Bytes → CryptoAlgorithm → Type 0 where
    strong :
        (output : Value) (path : Bytes) (ready : CryptoAlgorithm)
        → service.open_session (get_name dh_algorithm) (get_session_input dh_algorithm)
          ≡ some (output, path)
        → set_session_output primitives dh_algorithm output ≡ (true, ready)
        → Opened dh_algorithm path ready
    fallback :
        (path : Bytes)
        → service.open_session (get_name dh_algorithm) (get_session_input dh_algorithm) ≡ none
        → service.open_session (get_name plain_crypto) (get_session_input plain_crypto)
          ≡ some (str [], path)
        → Opened dh_algorithm path plain_crypto

  abbrev when_valid : Bool → Bytes → CryptoAlgorithm → Option (Bytes × CryptoAlgorithm)
  when_valid valid path r = if valid then some (path, r) else none

  accepted :
      (valid : Bool) (r ready : CryptoAlgorithm) (path p : Bytes)
      → when_valid valid path r ≡ some (p, ready)
      → (valid ≡ true) × (r ≡ ready) × (path ≡ p)
  accepted true r ready path p h =
      let e = some-injective (path, r) (p, ready) h in (refl, ap (λ q. q.1) e, ap (λ q. q.0) e)
  accepted false r ready path p h = absurd (ground (arith, h))

  tried :
      (algo : CryptoAlgorithm) (algorithms : List CryptoAlgorithm) (p : Bytes)
      (ready : CryptoAlgorithm)
      → try_algorithms primitives service (algo ∷ algorithms) ≡ some (p, ready)
      → ((service.open_session (get_name algo) (get_session_input algo) ≡ none)
          × (try_algorithms primitives service algorithms ≡ some (p, ready)))
        ⊎ ((output : Value) × (service.open_session (get_name algo) (get_session_input algo)
              ≡ some (output, p))
            × (set_session_output primitives algo output ≡ (true, ready)))
  unfolding try_algorithms
  tried algo algorithms p ready h =
      elim (Option-cases (service.open_session (get_name algo) (get_session_input algo))) [
        | inl e ↦ inl (e, rw (e, try_algorithms) at h)
        | inr ((output, path), e) ↦
            let k : when_valid (set_session_output primitives algo output).0 path
                  (set_session_output primitives algo output).1
                ≡ some (p, ready) =
              rw (e, try_algorithms) at h in
            let (valid, f, g) =
              accepted (set_session_output primitives algo output).0
                (set_session_output primitives algo output).1 ready path p k in
            inr (
              output,
              e ∙ ap (λ q. some (output, q)) g,
              ap (λ v. (v, (set_session_output primitives algo output).1)) valid
                  ∙ ap (λ r. (true, r)) f,
            )
      ]

  plain_output :
      (output : Value) (ready : CryptoAlgorithm)
      → set_session_output primitives plain_crypto output ≡ (true, ready)
      → (output ≡ str []) × (plain_crypto ≡ ready)
  unfolding set_session_output
  plain_output (str []) ready h = (refl, ap (λ q. q.1) h)
  plain_output (str (b ∷ bs)) ready h = absurd (impossible (ap (λ q. q.0) h))
  plain_output (byte_array bs) ready h = absurd (impossible (ap (λ q. q.0) h))
  plain_output other ready h = absurd (impossible (ap (λ q. q.0) h))

  bind-some :
      {A B : Type 0} (o : Option A) (f : A → Option B) (b : B)
      → (o >>= f) ≡ some b
      → (a : A) × (o ≡ some a) × (f a ≡ some b)
  bind-some none f b h = absurd (ground (arith, h))
  bind-some (some a) f b h = (a, refl, h)

  try_algorithms-Opened :
      (dh_algorithm : CryptoAlgorithm) (path : Bytes) (ready : CryptoAlgorithm)
      → try_algorithms primitives service (dh_algorithm ∷ plain_crypto ∷ []) ≡ some (path, ready)
      → Opened dh_algorithm path ready
  unfolding try_algorithms
  try_algorithms-Opened dh_algorithm path ready h =
      elim (tried dh_algorithm (plain_crypto ∷ []) path ready h) [
        | inr (output, e, f) ↦ strong output path ready e f
        | inl (e, h') ↦ elim (tried plain_crypto [] path ready h') [
          | inl (_, h'') ↦ absurd (ground (arith, h''))
          | inr (output, f, g) ↦
              let (empty, same) = plain_output output ready g in
              subst (Opened dh_algorithm path) same
                (fallback path e (f ∙ ap (λ o. some (o, path)) empty))
        ]
      ]

  -- A session that new returns is connected, has the first collection with the wanted label, and
  -- uses the Diffie-Hellman algorithm if the service opens a session for it, and the plain one
  -- only if the service refuses that and opens a plain session with an empty output.
  pub new-Opened :
      (dh_algorithm : CryptoAlgorithm) (label : Bytes) (session : SecretSession)
      → new primitives service dh_algorithm label ≡ some session
      → (session.connected ≡ true)
        × Opened dh_algorithm session.session_path session.algo
        × (collections : List Bytes) × (service.collections ≡ some collections)
        × FirstLabelled service label collections (some session.collection_path)
  unfolding new
  new-Opened dh_algorithm label session h =
      let ((path, ready), e1, h1) =
        bind-some (try_algorithms primitives service (dh_algorithm ∷ plain_crypto ∷ [])) _ session
          h in
      let (collections, e2, h2) = bind-some service.collections _ session h1 in
      let (collection_path, e3, h3) =
        bind-some (find_collection primitives service label collections) _ session h2 in
      let (how, e4, h4) =
        bind-some (unlock_collection primitives service collection_path) _ session h3 in
      let e = some-injective _ session h4 in
      (
        sym (ap (λ s. s.connected) e),
        subst (λ s. Opened dh_algorithm s.session_path s.algo) e
            (try_algorithms-Opened dh_algorithm path ready e1),
        collections,
        e2,
        subst (λ s. FirstLabelled service label collections (some s.collection_path)) e
            (subst (FirstLabelled service label collections) e3
              (find_collection-FirstLabelled label collections)),
      )
