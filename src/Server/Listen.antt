-- ===== src/Server/Listen.antt =====
-- How the daemon of src/bin/neoshd.rs finds a port: validate_new_args, parse_port_range and
-- bind_endpoint. Whether the QUIC library can serve at an address and a port is a parameter, and so
-- is its check of the idle timeout.
use neosh.Prelude.{
  ltb, ◌==◌, if◌then◌else◌, ==_iff, Bool-cases, Option-cases, length, is_empty, Result, ok, err,
  ◌>>=◌, ◌>>◌, guard, ok_or, map_err, Text, codes, split, parse_u16, parse_u16-bound, ℕ, zero, suc,
  ◌+◌, ◌-◌, ◌≤◌, ◌<◌, ◌≡◌, refl, sym, subst, inl, inr, Bool, true, false, not, ◌&&◌, ◌||◌, Option,
  none, some, List, [], ◌∷◌, ◌++◌, arith,
}
use neosh.Server.Errors.{NeoshdError, config}
use neosh.Server.State.{NewArgs}

abbrev next : List Text → Option Text
next [] = none
next (w ∷ ws) = some w

unfoldable pub port_pair : List Text → Result NeoshdError (ℕ × ℕ)
unfolding parse_u16
port_pair [] = err (config (codes "missing range start"))
port_pair (first ∷ parts) = do
  start ← ok_or (parse_u16 first) (config (codes "invalid range start"))
  second ← ok_or (next parts) (config (codes "missing range end"))
  end ← ok_or (parse_u16 second) (config (codes "invalid range end"))
  guard (not ((start == 0) || ltb end start)) (config (codes "invalid --port-range"))
  ok (start, end)

unfoldable pub parse_port_range : Text → Result NeoshdError (ℕ × ℕ)
unfolding split port_pair
parse_port_range range = port_pair (split b':' range)

unfoldable pub validate_new_args :
    (ℕ → Result Text (Unit {0})) → NewArgs → Result NeoshdError (Unit {0})
unfolding split
validate_new_args idle_timeout args = do
  guard (length (split b':' args.port_range) == 2) (config (codes "--port-range must be START:END"))
  guard
      (not (
        (is_empty args.tls_cert && not (is_empty args.tls_key))
        || (not (is_empty args.tls_cert) && is_empty args.tls_key)))
      (config (codes "--tls-cert and --tls-key must be provided together"))
  map_err (λ e. config (codes "invalid --quic-idle-timeout-seconds: " ++ e))
      (idle_timeout args.quic_idle_timeout_seconds)

-- The inner loop, over the `n` ports from `port` on.
unfoldable pub first_port : (ℕ → Bool) → ℕ → ℕ → Option ℕ
first_port serves port zero = none
first_port serves port (suc n) =
    let rest = first_port serves (port + 1) n in if serves port then some port else rest

-- The outer loop, over the addresses.
unfoldable pub first_endpoint {ℓ} :
    {Addr : Type ℓ} → (Addr → ℕ → Bool) → List Addr → ℕ → ℕ → Option (Addr × ℕ)
unfolding first_port
first_endpoint serves [] start n = none
first_endpoint serves (ip ∷ ips) start n =
    let rest = first_endpoint serves ips start n in
    elim (first_port (serves ip) start n) [ some port ↦ some (ip, port) | none ↦ rest ]

unfoldable pub bind_endpoint {ℓ} :
    {Addr : Type ℓ} → (Addr → ℕ → Bool) → List Addr → Text → Result NeoshdError (Addr × ℕ)
unfolding parse_port_range first_endpoint
bind_endpoint serves bind_addrs range = do
  (start, end) ← parse_port_range range
  ok_or (first_endpoint serves bind_addrs start (end + 1 - start))
      (config (codes "no available port in range"))

port_pair-bounds :
    (ws : List Text) (start end : ℕ)
    → port_pair ws ≡ ok (start, end)
    → (1 ≤ start) × (start ≤ end) × (end < 65536)
unfolding port_pair
port_pair-bounds [] start end h = ground (arith, h)
port_pair-bounds (a ∷ []) start end h = ground (arith, h)
port_pair-bounds (a ∷ b ∷ ws) start end h = ground (arith, h, parse_u16-bound b end)

first_port-serves :
    (serves : ℕ → Bool) (port n p : ℕ)
    → first_port serves port n ≡ some p
    → (port ≤ p) × (p < port + n) × (serves p ≡ true)
unfolding first_port
first_port-serves serves port zero p h = ground (arith, h)
first_port-serves serves port (suc n) p h =
    ground (arith, h, first_port-serves serves (port + 1) n p)

first_port-none :
    (serves : ℕ → Bool) (port n p : ℕ)
    → first_port serves port n ≡ none
    → port ≤ p
    → p < port + n
    → serves p ≡ false
unfolding first_port
first_port-none serves port zero p h l u = ground (arith, l, u)
first_port-none serves port (suc n) p h l u = elim (Bool-cases (port == p)) [
  | inl e ↦ ground (arith, h, subst (λ q. serves q ≡ serves p) (sym ((==_iff port p).0 e)) refl)
  | inr e ↦ ground (arith, h, l, u, e, first_port-none serves (port + 1) n p)
]

module _ {ℓ} {Addr : Type ℓ} (serves : Addr → ℕ → Bool) (start n : ℕ) where
  -- No port of the range can be served at any of the addresses.
  abbrev pub AllRefused : List Addr → Type 0
  AllRefused [] = Unit {0}
  AllRefused (ip ∷ ips) =
      ((p : ℕ) → start ≤ p → p < start + n → serves ip p ≡ false) × AllRefused ips

  abbrev pub Found : List Addr → Option (Addr × ℕ) → Type 0
  Found ips none = AllRefused ips
  Found ips (some (ip, p)) = (start ≤ p) × (p < start + n) × (serves ip p ≡ true)

  Found-later :
      (ip : Addr) (ips : List Addr) (r : Option (Addr × ℕ))
      → ((p : ℕ) → start ≤ p → p < start + n → serves ip p ≡ false)
      → Found ips r
      → Found (ip ∷ ips) r
  Found-later ip ips none h f = (h, f)
  Found-later ip ips (some (a, p)) h f = f

  first_endpoint-Found : (ips : List Addr) → Found ips (first_endpoint serves ips start n)
  unfolding first_endpoint
  first_endpoint-Found [] = tt
  first_endpoint-Found (ip ∷ ips) = elim (Option-cases (first_port (serves ip) start n)) [
    | inr (p, e) ↦ rw (e, Found) (first_port-serves (serves ip) start n p e)
    | inl e ↦
        rw (e, Found)
          (Found-later ip ips (first_endpoint serves ips start n)
            (λ p l u. first_port-none (serves ip) start n p e l u) (first_endpoint-Found ips))
  ]

module _ {ℓ} {Addr : Type ℓ} (serves : Addr → ℕ → Bool) (start end : ℕ) where
  -- What an answer of `bind_endpoint` says of the range from `start` to `end`.
  abbrev pub Answers : List Addr → Result NeoshdError (Addr × ℕ) → Type 0
  Answers ips (ok (ip, p)) = (1 ≤ p) × (p < 65536) × (start ≤ p) × (p ≤ end) × (serves ip p ≡ true)
  Answers ips (err e) = AllRefused serves start (end + 1 - start) ips

  Found-Answers :
      (ips : List Addr) (r : Option (Addr × ℕ)) (e : NeoshdError)
      → (1 ≤ start) × (start ≤ end) × (end < 65536)
      → Found serves start (end + 1 - start) ips r
      → Answers ips (ok_or r e)
  Found-Answers ips none e b f = f
  Found-Answers ips (some (ip, p)) e b f = ground (arith, b, f)

  -- If the range parses to `start` and `end`, then bind_endpoint answers with an address and a port
  -- that can be served, the port in the range and a nonzero number of 16 bits; or it fails, and then
  -- no port of the range can be served at any of the addresses.
  pub bind_endpoint-Answers :
      (ips : List Addr) (range : Text)
      → parse_port_range range ≡ ok (start, end)
      → Answers ips (bind_endpoint serves ips range)
  unfolding bind_endpoint
  bind_endpoint-Answers ips range h =
      rw (h, bind_endpoint)
        (Found-Answers ips (first_endpoint serves ips start (end + 1 - start)) _
          (port_pair-bounds (split b':' range) start end (unfold parse_port_range in h))
          (first_endpoint-Found serves start (end + 1 - start) ips))
