-- ===== src/Server/State/Replay.antt =====
-- The replay buffer of src/bin/neoshd.rs.
use neosh.Prelude.{
  concat, ltb, Bool-cases, length, drop, length-append, length-drop, Bytes, ℕ, zero, suc, ◌+◌, ◌-◌,
  ◌≤◌, ◌≡◌, refl, sym, ap, subst, ◌∙◌, inl, inr, List, [], ◌∷◌, ◌++◌, arith,
}
use neosh.Server.State.{ServerState, append_replay}
use mathlib.Core.Path.{ap₂}
use mathlib.Core.List.{append-nil, append_assoc}

-- The last `n` elements.
abbrev pub last {ℓ} : {A : Type ℓ} → ℕ → List A → List A
last n xs = drop (length xs - n) xs

unfoldable pub append_all : ServerState → List Bytes → ServerState
append_all st [] = st
append_all st (c ∷ cs) = append_all (append_replay st c) cs

drop-all {ℓ} : {A : Type ℓ} (n : ℕ) (xs : List A) → length xs ≤ n → drop n xs ≡ []
drop-all zero [] h = refl
drop-all zero (x ∷ xs) h = absurd (omega arith)
drop-all (suc n) [] h = refl
drop-all (suc n) (x ∷ xs) h = drop-all n xs (omega arith)

drop-append_le {ℓ} :
    {A : Type ℓ} (n : ℕ) (xs ys : List A) → n ≤ length xs → drop n (xs ++ ys) ≡ drop n xs ++ ys
drop-append_le zero xs ys h = refl
drop-append_le (suc n) [] ys h = absurd (omega arith)
drop-append_le (suc n) (x ∷ xs) ys h = drop-append_le n xs ys (omega arith)

drop-nil {ℓ} : {A : Type ℓ} (n : ℕ) → drop {A = A} n [] ≡ []
drop-nil zero = refl
drop-nil (suc n) = refl

drop-drop {ℓ} : {A : Type ℓ} (m n : ℕ) (xs : List A) → drop m (drop n xs) ≡ drop (n + m) xs
drop-drop m zero xs = let e : zero + m ≡ m = omega arith in rw e
drop-drop m (suc n) [] = drop-nil m ∙ sym (drop-nil (suc n + m))
drop-drop {A} m (suc n) (x ∷ xs) =
    let e : suc n + m ≡ suc (n + m) = omega arith in
    drop-drop m n xs ∙ sym (ap (λ k. drop k (x ∷ xs)) e)

last-last-append {ℓ} :
    {A : Type ℓ} (n : ℕ) (xs ys : List A) → last n (last n xs ++ ys) ≡ last n (xs ++ ys)
last-last-append n xs ys =
    let k = length xs - n in
    let whole = xs ++ ys in
    let e : last n xs ++ ys ≡ drop k whole = sym (drop-append_le k xs ys (omega arith)) in
    let total : k + (length (drop k whole) - n) ≡ length whole - n =
      omega (arith, length-drop k whole, length-append xs ys) in
    ap (last n) e ∙ drop-drop (length (drop k whole) - n) k whole ∙ ap (λ j. drop j whole) total

-- Appending a chunk keeps the last `replay_cap` bytes of the buffer and the chunk.
append_replay-last :
    (st : ServerState) (chunk : Bytes)
    → (append_replay st chunk).replay ≡ last st.replay_cap (st.replay ++ chunk)
unfolding append_replay
append_replay-last st chunk = elim (Bool-cases (ltb st.replay_cap (length (st.replay ++ chunk)))) [
  | inl e ↦ rw e
  | inr e ↦ let z : length (st.replay ++ chunk) - st.replay_cap ≡ 0 = ground arith in rw (e, z)
]

append_replay-cap :
    (st : ServerState) (chunk : Bytes) → (append_replay st chunk).replay_cap ≡ st.replay_cap
unfolding append_replay
append_replay-cap st chunk = refl

append_replay-bounded :
    (st : ServerState) (chunk : Bytes)
    → length (append_replay st chunk).replay ≤ (append_replay st chunk).replay_cap
append_replay-bounded st chunk =
    rw (append_replay-cap st chunk, append_replay-last st chunk)
      (omega
        (arith, length-drop (length (st.replay ++ chunk) - st.replay_cap) (st.replay ++ chunk)))

-- If the buffer is within its capacity, then whatever the sizes of the chunks, it holds the last
-- `replay_cap` bytes of all that it has held and all that was appended, so never more than
-- `replay_cap` bytes.
pub append_all-last :
    (st : ServerState) (chunks : List Bytes)
    → length st.replay ≤ st.replay_cap
    → ((append_all st chunks).replay ≡ last st.replay_cap (st.replay ++ concat chunks))
      × (length (append_all st chunks).replay ≤ st.replay_cap)
unfolding append_all
append_all-last st [] h =
    (rw append-nil (let z : length st.replay - st.replay_cap ≡ 0 = omega arith in rw z), h)
append_all-last st (c ∷ cs) h =
    let rest = append_all-last (append_replay st c) cs (append_replay-bounded st c) in
    (
      rest.0
          ∙ ap₂ (λ n r. last n (r ++ concat cs)) (append_replay-cap st c) (append_replay-last st c)
          ∙ last-last-append st.replay_cap (st.replay ++ c) (concat cs)
          ∙ ap (last st.replay_cap) (append_assoc st.replay c (concat cs)),
      subst (λ n. length (append_all (append_replay st c) cs).replay ≤ n) (append_replay-cap st c)
          rest.1,
    )
