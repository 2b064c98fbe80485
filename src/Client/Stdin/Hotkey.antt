-- ===== src/Client/Stdin/Hotkey.antt =====
-- What the detach hotkey of src/bin/neosh.rs lets through.
use neosh.Prelude.{
  concat, ◌==◌, if◌then◌else◌, Bool-cases, Bytes, ℕ, ◌≡◌, refl, sym, ap, ◌∙◌, ◌≢◌, inl, inr, Bool,
  true, false, ◌&&◌, ◌||◌, List, [], ◌∷◌, ◌++◌, map, arith,
}
use neosh.Client.Stdin.{
  normalize_stdin_byte, is_detach_key, scan, process_stdin_chunk_for_detach, forward,
}
use mathlib.Core.List.{map-append, map-append, append-nil, append_assoc, map-append}

-- A pending Ctrl-a, as the byte that it stands for.
abbrev pub held : Bool → Bytes
held true = 0x01 ∷ []
held false = []

-- A Ctrl-a directly before a d or a D.
abbrev pub has_hotkey_after : Bool → Bytes → Bool
has_hotkey_after p [] = false
has_hotkey_after p (b ∷ bs) = (p && is_detach_key b) || has_hotkey_after (b == 0x01) bs

scan-hotkey : (bs out : Bytes) (p : Bool) → (scan bs out p).0 ≡ has_hotkey_after p bs
unfolding scan
scan-hotkey [] out p = refl
scan-hotkey (b ∷ bs) out p = elim (Bool-cases (p && is_detach_key b)) [
  | inl e ↦ rw e
  | inr e ↦ rw e (scan-hotkey bs _ (b == 0x01))
]

normalize_ctrl_a : (b : ℕ) → (b == 0x01) ≡ true → normalize_stdin_byte b ≡ 0x01
unfolding normalize_stdin_byte
normalize_ctrl_a b e = ground arith

-- What one byte adds.
scan_byte :
    (b : ℕ) (out rest : Bytes) (p : Bool)
    → (let out' = if p then out ++ 0x01 ∷ [] else out in
          if b == 0x01 then out' else out' ++ normalize_stdin_byte b ∷ [])
        ++ (held (b == 0x01) ++ rest)
      ≡ out ++ (held p ++ normalize_stdin_byte b ∷ rest)
scan_byte b out rest true = elim (Bool-cases (b == 0x01)) [
  | inl e ↦ rw (e, normalize_ctrl_a b e) (append_assoc out (0x01 ∷ []) (0x01 ∷ rest))
  | inr e ↦ rw e (simp append_assoc)
]
scan_byte b out rest false = elim (Bool-cases (b == 0x01)) [
  | inl e ↦ rw (e, normalize_ctrl_a b e)
  | inr e ↦ rw e (simp append_assoc)
]

true-ne-false : ◌≢◌ {A = Bool} true false
true-ne-false h = cc

held_if : (p : Bool) → (if p then 0x01 ∷ [] else []) ≡ held p
held_if true = refl
held_if false = refl

scan-output :
    (bs out : Bytes) (p : Bool)
    → has_hotkey_after p bs ≡ false
    → (scan bs out p).1 ++ held (scan bs out p).2 ≡ out ++ (held p ++ map normalize_stdin_byte bs)
unfolding scan
scan-output [] out p h = rw append-nil
scan-output (b ∷ bs) out p h = elim (Bool-cases (p && is_detach_key b)) [
  | inl e ↦ absurd (true-ne-false (rw e at h))
  | inr e ↦
      rw e
        (scan-output bs _ (b == 0x01) (rw e at h) ∙ scan_byte b out (map normalize_stdin_byte bs) p)
]

abbrev ends_held : Bool → Bytes → Bool
ends_held p [] = p
ends_held p (b ∷ bs) = ends_held (b == 0x01) bs

has_hotkey-append :
    (xs ys : Bytes) (p : Bool)
    → has_hotkey_after p (xs ++ ys) ≡ has_hotkey_after p xs || has_hotkey_after (ends_held p xs) ys
has_hotkey-append [] ys p = refl
has_hotkey-append (b ∷ xs) ys p = ground (arith, has_hotkey-append xs ys (b == 0x01))

scan-pending :
    (bs out : Bytes) (p : Bool) → has_hotkey_after p bs ≡ false → (scan bs out p).2 ≡ ends_held p bs
unfolding scan
scan-pending [] out p h = refl
scan-pending (b ∷ bs) out p h = elim (Bool-cases (p && is_detach_key b)) [
  | inl e ↦ absurd (true-ne-false (rw e at h))
  | inr e ↦ rw e (scan-pending bs _ (b == 0x01) (rw e at h))
]

forward-silent :
    (c : Bytes) (cs : List Bytes) (p : Bool)
    → has_hotkey_after p c ≡ false
    → (has_hotkey_after (scan c [] p).2 (concat cs) ≡ false
        → (forward (scan c [] p).2 cs).1
          ≡ held (scan c [] p).2 ++ map normalize_stdin_byte (concat cs))
    → has_hotkey_after p (c ++ concat cs) ≡ false
    → (forward p (c ∷ cs)).1 ≡ held p ++ map normalize_stdin_byte (c ++ concat cs)
unfolding forward
forward-silent c cs p e rest h =
    let quiet : has_hotkey_after (scan c [] p).2 (concat cs) ≡ false =
      ground (arith, e, h, scan-pending c [] p e, has_hotkey-append c (concat cs) p) in
    let later = map normalize_stdin_byte (concat cs) in
    let silent : (process_stdin_chunk_for_detach c p).0 ≡ false = scan-hotkey c [] p ∙ e in
    rw silent (
      ap (◌++◌ (scan c [] p).1) (rest quiet)
      ∙ sym (append_assoc (scan c [] p).1 (held (scan c [] p).2) later)
      ∙ ap (λ t. t ++ later) (scan-output c [] p e)
      ∙ append_assoc (held p) (map normalize_stdin_byte c) later
      ∙ ap (◌++◌ (held p)) (sym (map-append normalize_stdin_byte c (concat cs))))

-- Over the whole input, however it is cut into chunks: the hotkey is seen exactly when somewhere in
-- the input a Ctrl-a stands directly before a d or a D; and if it is not seen, every byte is sent in
-- order, with backspaces normalised.
pub forward-concat :
    (chunks : List Bytes) (p : Bool)
    → ((forward p chunks).0 ≡ has_hotkey_after p (concat chunks))
      × (has_hotkey_after p (concat chunks) ≡ false
          → (forward p chunks).1 ≡ held p ++ map normalize_stdin_byte (concat chunks))
unfolding forward
forward-concat [] p = (refl, λ _. rw append-nil (held_if p))
forward-concat (c ∷ cs) p = elim (Bool-cases (has_hotkey_after p c)) [
  | inl e ↦ (
    ground (arith, e, scan-hotkey c [] p, has_hotkey-append c (concat cs) p),
    λ h. absurd (true-ne-false (rw (has_hotkey-append c (concat cs) p, e) at h)),
  )
  | inr e ↦
      let rest = forward-concat cs (scan c [] p).2 in
      (
        ground (
          arith,
          e,
          scan-hotkey c [] p,
          scan-pending c [] p e,
          has_hotkey-append c (concat cs) p,
          rest.0,
        ),
        λ h. forward-silent c cs p e rest.1 h,
      )
]
