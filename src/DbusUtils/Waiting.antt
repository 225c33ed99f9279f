-- ===== src/DbusUtils/Waiting.antt =====
-- dbus_utils.rs, `wait_for_object`: when it returns.
use one_true_pairing.Common.{
  ◌≡◌, true, false, none, some, List, [], ◌∷◌, ◌++◌, ◌⊎◌, inl, inr, All, Bool-cases, Option-cases,
}
use one_true_pairing.Common.Bytes.{Bytes}
use one_true_pairing.Totp.Url.{bytes_eq}
use one_true_pairing.DbusUtils.{
  NameOwner, owner, no_owner, failed, NewKid, Waited, returned, panicked, wait_loop,
  wait_for_object,
}

-- A signal about another name, or that the name has no owner.
abbrev pub IsIgnored : Bytes → NewKid → Type 0
IsIgnored object_name kid = (bytes_eq kid.name object_name ≡ false) ⊎ (kid.new_owner ≡ none)

-- The outcome by the answer and the signals.
pub data Waits (object_name : Bytes) : NameOwner → List NewKid → Waited → Type 0 where
  there_already :
      (name : Bytes) (kids : List NewKid) → Waits object_name (owner name) kids (returned kids)
  appeared :
      (before : List NewKid) (kid : NewKid) (new_owner : Bytes) (later : List NewKid)
      → All (IsIgnored object_name) before
      → bytes_eq kid.name object_name ≡ true
      → kid.new_owner ≡ some new_owner
      → Waits object_name no_owner (before ++ (kid ∷ later)) (returned later)
  stream_ended :
      (kids : List NewKid)
      → All (IsIgnored object_name) kids
      → Waits object_name no_owner kids panicked
  refused : (kids : List NewKid) → Waits object_name failed kids panicked

ignored :
    (object_name : Bytes) (kid : NewKid) (kids : List NewKid) (w : Waited)
    → IsIgnored object_name kid
    → Waits object_name no_owner kids w
    → Waits object_name no_owner (kid ∷ kids) w
ignored object_name kid _ _ i (appeared before k o later is e f) =
    appeared (kid ∷ before) k o later (i, is) e f
ignored object_name kid _ _ i (stream_ended kids is) = stream_ended (kid ∷ kids) (i, is)

wait_loop-Waits :
    (object_name : Bytes) (kids : List NewKid)
    → Waits object_name no_owner kids (wait_loop object_name kids)
unfolding wait_loop
wait_loop-Waits object_name [] = stream_ended [] _
wait_loop-Waits object_name (kid ∷ kids) =
    let ih = wait_loop-Waits object_name kids in
    elim (Bool-cases (bytes_eq kid.name object_name)) [
      | inr e ↦ rw (e, wait_loop) (ignored object_name kid kids _ (inl e) ih)
      | inl e ↦ elim (Option-cases kid.new_owner) [
        | inl f ↦ rw (e, wait_loop) (simp f (ignored object_name kid kids _ (inr f) ih))
        | inr (o, f) ↦ rw (e, wait_loop) (simp f (appeared [] kid o kids _ e f))
      ]
    ]

-- Wait_for_object returns at once if the name has an owner, else after the first signal about that
-- name that has an owner, all signals before it ignored; it panics if the stream ends without one,
-- and on any other error.
pub wait_for_object-Waits :
    (object_name : Bytes) (answer : NameOwner) (kids : List NewKid)
    → Waits object_name answer kids (wait_for_object object_name answer kids)
unfolding wait_for_object
wait_for_object-Waits object_name (owner name) kids = there_already name kids
wait_for_object-Waits object_name no_owner kids = wait_loop-Waits object_name kids
wait_for_object-Waits object_name failed kids = refused kids
