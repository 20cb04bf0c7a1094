-- ===== src/Egress/Safety.antt =====
-- What the filter and the redirect loop keep: no connection leaves to an address that is refused.
use rollout.Prelude.{
  ℕ, zero, suc, ◌+◌, ◌<◌, ◌≤◌, ◌≡◌, refl, Bool, true, false, ◌&&◌, List, [], ◌∷◌, Option, none,
  some, if◌then◌else◌, arith, ltb, leb, All, All-append, bytes_eq, not, length, length-append,
  Option-cases, Bool-cases, inl, inr, ◌⊎◌,
}
use rollout.Core.Ids.{Bytes}
use rollout.Egress.Filter.{
  BlockReason, IpAddr, Picked, picked, all_blocked, blocked_range, filter_ip, pick_from,
  pick_safe_ip, listed,
}
use rollout.Egress.Fetch.{
  Method, bad_url, too_many_redirects, Fetched, fetched, fault, HttpResponse, EgressConfig, Hop,
  Uri, SocketAddr, Net, Traced, max_redirects, connect_pinned, hop_to, one_hop, timed_hop, Next,
  finish, follow, after_hop, fetch_loop, fetch, http, https, unwrap_or, redirected, answered,
}

-- What passes the filter is in none of the refused ranges, and is listed where there is a list.
-- Loopback is let through only by the switch that the tests set.
pub filter_ip-passes :
    (ip : IpAddr) (allowlist : List IpAddr)
    → filter_ip ip allowlist false ≡ none
    → (blocked_range ip ≡ none) × ((allowlist ≡ []) ⊎ (listed ip allowlist ≡ true))
unfolding filter_ip
filter_ip-passes ip [] h = (ground arith, inl refl)
filter_ip-passes ip (a ∷ more) h = (ground arith, inr (ground arith))

-- The address that is picked is the first of those resolved that passes the filter.
pub pick_from-passes :
    (last : BlockReason) (ips allowlist : List IpAddr) (loop : Bool) (ip : IpAddr)
    → pick_from last ips allowlist loop ≡ picked ip
    → filter_ip ip allowlist loop ≡ none
unfolding pick_from
pick_from-passes last [] allowlist loop ip h = cc
pick_from-passes last (x ∷ xs) allowlist loop ip h =
    elim (Option-cases (filter_ip x allowlist loop)) [
      | inl e ↦ let same : picked x ≡ picked ip = rw (e, pick_from) at h in cc
      | inr (r, e) ↦
          let rest : pick_from r xs allowlist loop ≡ picked ip = rw (e, pick_from) at h in
          pick_from-passes r xs allowlist loop ip rest
    ]

-- A connection that the configuration permits.
abbrev pub Permitted : EgressConfig → SocketAddr → Type 0
Permitted egress addr = filter_ip addr.ip egress.allowlist egress.allow_loopback ≡ none

-- At most one connection, and a permitted one.
abbrev pub Guarded : {A : Type 0} → EgressConfig → Traced A → Type 0
Guarded egress t = All (Permitted egress) t.1 × (length t.1 ≤ 1)

module _ ⦃net : Net⦄ where
  Picked-cases :
      (p : Picked) → ((ip : IpAddr) × (p ≡ picked ip)) ⊎ ((r : BlockReason) × (p ≡ all_blocked r))
  Picked-cases (picked ip) = inl (ip, refl)
  Picked-cases (all_blocked r) = inr (r, refl)

  connect_pinned-Guarded :
      (hop : ℕ) (secure : Bool) (method : Method) (uri : Uri) (host : Bytes) (port : ℕ)
      (body : Option Bytes) (egress : EgressConfig) (ips : List IpAddr)
      → Guarded egress (connect_pinned hop secure method uri host port body egress ips)
  unfolding connect_pinned pick_safe_ip
  connect_pinned-Guarded hop secure method uri host port body egress [] = (tt, omega arith)
  connect_pinned-Guarded hop secure method uri host port body egress (ip ∷ ips) =
      elim (Picked-cases (pick_safe_ip (ip ∷ ips) egress.allowlist egress.allow_loopback)) [
        | inl (pinned, e) ↦
            rw (e, connect_pinned, All)
              (
                (
                  pick_from-passes BlockReason.unspecified (ip ∷ ips) egress.allowlist
                      egress.allow_loopback pinned e,
                  tt,
                ),
                omega arith,
              )
        | inr (r, e) ↦ rw (e, connect_pinned, All) (tt, omega arith)
      ]

  hop_to-Guarded :
      (hop : ℕ) (method : Method) (uri : Uri) (body : Option Bytes) (egress : EgressConfig)
      (host : Option Bytes)
      → Guarded egress (hop_to hop method uri body egress host)
  unfolding hop_to
  hop_to-Guarded hop method uri body egress none = (tt, omega arith)
  hop_to-Guarded hop method uri body egress (some host) =
      elim (Option-cases (net.resolve hop host)) [
        | inl e ↦ rw (e, hop_to, All) (tt, omega arith)
        | inr (ips, e) ↦
            rw (e, hop_to)
              (connect_pinned-Guarded hop (bytes_eq (unwrap_or http uri.scheme_str) https) method
                uri host
                (unwrap_or (if bytes_eq (unwrap_or http uri.scheme_str) https then 443 else 80)
                  uri.port_u16)
                body egress ips)
      ]

  if-Guarded :
      (b : Bool) (egress : EgressConfig) (t : Traced Hop)
      → Guarded egress t
      → Guarded egress (if b then (fault bad_url, []) else t)
  if-Guarded true egress t h = (tt, omega arith)
  if-Guarded false egress t h = h

  one_hop-Guarded :
      (hop : ℕ) (method : Method) (url : Bytes) (body : Option Bytes) (egress : EgressConfig)
      → Guarded egress (one_hop hop method url body egress)
  unfolding one_hop
  one_hop-Guarded hop method url body egress = elim (Option-cases (net.parse url)) [
    | inl e ↦ rw (e, one_hop, All) (tt, omega arith)
    | inr (uri, e) ↦
        rw (e, one_hop)
          (if-Guarded
            (not (bytes_eq (unwrap_or http uri.scheme_str) http)
              && not (bytes_eq (unwrap_or http uri.scheme_str) https))
            egress (hop_to hop method uri body egress uri.host)
            (hop_to-Guarded hop method uri body egress uri.host))
  ]

  redirected-follow :
      (redirects : ℕ) (current url : Bytes) (resp : Hop) (loc : Option Bytes)
      → redirected redirects current resp loc ≡ follow url
      → redirects < max_redirects
  redirected-follow redirects current url resp none h = cc
  redirected-follow redirects current url resp (some loc) h =
      elim (Bool-cases (ltb max_redirects (redirects + 1))) [
        | inl e ↦
            let no : finish (fault too_many_redirects) ≡ follow url = rw (e, redirected) at h in cc
        | inr e ↦ ground arith
      ]

  -- A hop that goes on has had its redirect counted within the bound.
  after_hop-follow :
      (redirects : ℕ) (current url : Bytes) (r : Fetched Hop)
      → after_hop redirects current r ≡ follow url
      → redirects < max_redirects
  unfolding after_hop
  after_hop-follow redirects current url (fault e) h = cc
  after_hop-follow redirects current url (fetched resp) h =
      elim (leb 300 resp.status && ltb resp.status 400)
          as (λ b.
            (if b then redirected redirects current resp resp.location else answered resp)
              ≡ follow url
            → redirects < max_redirects) [
              | true ↦ redirected-follow redirects current url resp resp.location
              | false ↦ λ q. cc
            ]
        h

  timed_hop-Guarded :
      (hop : ℕ) (method : Method) (url : Bytes) (body : Option Bytes) (egress : EgressConfig)
      → Guarded egress (timed_hop hop method url body egress)
  unfolding timed_hop
  timed_hop-Guarded hop method url body egress = one_hop-Guarded hop method url body egress

  Next-cases :
      (n : Next)
      → ((r : Fetched HttpResponse) × (n ≡ finish r)) ⊎ ((url : Bytes) × (n ≡ follow url))
  Next-cases (finish r) = inl (r, refl)
  Next-cases (follow url) = inr (url, refl)

  -- What the loop answers within its fuel: each connection permitted, one for each unit of fuel at most.
  abbrev pub Answers : EgressConfig → ℕ → Option (Traced HttpResponse) → Type 0
  Answers egress n none = ⊥
  Answers egress n (some t) = All (Permitted egress) t.1 × (length t.1 ≤ n)

  Answers-cases :
      (egress : EgressConfig) (n : ℕ) (o : Option (Traced HttpResponse))
      → Answers egress n o
      → (t : Traced HttpResponse) × (o ≡ some t) × All (Permitted egress) t.1 × (length t.1 ≤ n)
  Answers-cases egress n none h = absurd h
  Answers-cases egress n (some t) h = (t, refl, h.0, h.1)

  fetch_loop-Answers :
      (fuel redirects : ℕ) (method : Method) (current : Bytes) (body : Option Bytes)
      (egress : EgressConfig)
      → max_redirects < redirects + fuel
      → redirects ≤ max_redirects
      → Answers egress fuel (fetch_loop fuel redirects method current body egress)
  unfolding fetch_loop
  fetch_loop-Answers zero redirects method current body egress h k = omega (arith, h, k)
  fetch_loop-Answers (suc fuel) redirects method current body egress h k =
      let t : Traced Hop = timed_hop redirects method current body egress in
      let (safe, few) = timed_hop-Guarded redirects method current body egress in
      elim (Next-cases (after_hop redirects current t.0)) [
        | inl (r, e) ↦ rw (e, fetch_loop, Answers) (safe, omega (arith, few))
        | inr (url, e) ↦
            let within = after_hop-follow redirects current url t.0 e in
            let rest =
              fetch_loop-Answers fuel (redirects + 1) method url body egress (omega (arith, h))
                (omega (arith, within)) in
            let (u, same, safe', few') = Answers-cases egress fuel _ rest in
            rw (e, same, fetch_loop, Answers)
              (
                All-append (Permitted egress) t.1 u.1 safe safe',
                omega (arith, few, few', length-append t.1 u.1),
              )
      ]

  All-map {ℓ κ ν} :
      {A : Type ℓ} (P : A → Type κ) (Q : A → Type ν) (xs : List A)
      → ((a : A) → P a → Q a)
      → All P xs
      → All Q xs
  All-map P Q [] f h = tt
  All-map P Q (x ∷ xs) f h = (f x h.0, All-map P Q xs f h.1)

  -- Whatever the names resolve to on each hop, wherever the redirects lead and whenever the deadline
  -- passes, a fetch with loopback refused, as in production, ends after at most six connections
  -- (`max_redirects` and the first), and none of them goes to an address in a refused range.
  pub fetch-stays_out :
      (method : Method) (url : Bytes) (body : Option Bytes) (allowlist : List IpAddr)
      → (t : Traced HttpResponse) × (fetch method url body
            (record { allowlist = allowlist; allow_loopback = false })
          ≡ some t)
        × All (λ addr. blocked_range addr.ip ≡ none) t.1
        × (length t.1 ≤ max_redirects + 1)
  unfolding fetch
  fetch-stays_out method url body allowlist =
      let egress : EgressConfig = record { allowlist = allowlist; allow_loopback = false } in
      let (t, same, safe, few) =
        Answers-cases egress (max_redirects + 1) (fetch method url body egress) (
          fetch_loop-Answers (max_redirects + 1) 0 method url body egress (omega arith)
            (omega arith)) in
      (
        t,
        same,
        All-map (Permitted egress) (λ addr. blocked_range addr.ip ≡ none) t.1
            (λ addr h. (filter_ip-passes addr.ip allowlist h).0) safe,
        few,
      )
