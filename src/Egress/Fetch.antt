-- ===== src/Egress/Fetch.antt =====
-- crates/rollout-harness-tool/src/http/mod.rs: `fetch`, `one_hop` and `resolve_redirect`.
-- The parser of URLs, the resolver, the connection and the clock are arguments of the model. What
-- they answer may differ from hop to hop, so they take the number of the hop.
use rollout.Prelude.{
  ℕ, zero, suc, ◌+◌, ◌==◌, ltb, leb, Bool, true, false, not, ◌&&◌, ◌||◌, List, [], ◌∷◌, ◌++◌,
  Option, none, some, if◌then◌else◌, codes, bytes_eq,
}
use rollout.Core.Ids.{Bytes}
use rollout.Egress.Filter.{BlockReason, IpAddr, picked, all_blocked, pick_safe_ip}

abbrev pub max_redirects : ℕ
max_redirects = 5

pub data Method : Type 0 where
  get : Method
  post : Method

pub data HttpError : Type 0 where
  blocked : Bytes → BlockReason → HttpError
  resolve_failed : HttpError
  bad_url : HttpError
  too_many_redirects : HttpError
  timed_out : HttpError
  transport : HttpError

-- `Result<_, HttpError>`
pub data Fetched (A : Type 0) : Type 0 where
  fetched : A → Fetched A
  fault : HttpError → Fetched A

pub record HttpResponse : Type 0 where
  pub status : ℕ
  pub body : Bytes

pub record EgressConfig : Type 0 where
  pub allowlist : List IpAddr
  pub allow_loopback : Bool

abbrev pub block_list_only : EgressConfig
block_list_only = record { allowlist = []; allow_loopback = false }

pub record Hop : Type 0 where
  pub status : ℕ
  pub location : Option Bytes
  pub body : Bytes

-- What `hyper::Uri` tells of a URL.
pub record Uri : Type 0 where
  pub scheme_str : Option Bytes
  pub host : Option Bytes
  pub authority : Option Bytes
  pub port_u16 : Option ℕ

pub record SocketAddr : Type 0 where
  pub ip : IpAddr
  pub port : ℕ

pub record Net : Type 0 where
  pub parse : Bytes → Option Uri
  pub resolve : ℕ → Bytes → Option (List IpAddr)
  pub send : ℕ → Bool → Method → Uri → Bytes → SocketAddr → Option Bytes → Fetched Hop
  -- Whether the hop is over before the deadline.
  pub in_time : ℕ → Bool

abbrev pub unwrap_or {ℓ} : {A : Type ℓ} → A → Option A → A
unwrap_or a none = a
unwrap_or a (some b) = b

abbrev pub starts_with : Bytes → Bytes → Bool
starts_with [] text = true
starts_with (x ∷ xs) [] = false
starts_with (x ∷ xs) (y ∷ ys) = (x == y) && starts_with xs ys

abbrev pub contains : Bytes → Bytes → Bool
contains part [] = starts_with part []
contains part (y ∷ ys) = starts_with part (y ∷ ys) || contains part ys

-- What the loop does with the answer of a hop: end, or go on to another URL.
pub data Next : Type 0 where
  finish : Fetched HttpResponse → Next
  follow : Bytes → Next

-- The connection that is made, and what it answered. A connection is written down where it is opened.
abbrev pub Traced : Type 0 → Type 0
Traced A = Fetched A × List SocketAddr

module _ ⦃net : Net⦄ where
  -- With the addresses known: filter, pin one, connect to it.
  unfoldable pub connect_pinned :
      ℕ → Bool → Method → Uri → Bytes → ℕ → Option Bytes → EgressConfig → List IpAddr → Traced Hop
  connect_pinned hop https method uri host port body egress [] = (fault resolve_failed, [])
  connect_pinned hop https method uri host port body egress (ip ∷ ips) =
      elim (pick_safe_ip (ip ∷ ips) egress.allowlist egress.allow_loopback) [
        | picked pinned ↦
            let addr : SocketAddr = record { ip = pinned; port = port } in
            (net.send hop https method uri host addr body, addr ∷ [])
        | all_blocked reason ↦ (fault (blocked host reason), [])
      ]

  abbrev pub http : Bytes
  http = codes "http"

  abbrev pub https : Bytes
  https = codes "https"

  unfoldable pub hop_to : ℕ → Method → Uri → Option Bytes → EgressConfig → Option Bytes → Traced Hop
  unfolding connect_pinned
  hop_to hop method uri body egress none = (fault bad_url, [])
  hop_to hop method uri body egress (some host) = elim (net.resolve hop host) [
    | none ↦ (fault resolve_failed, [])
    | some ips ↦
        let is_https : Bool = bytes_eq (unwrap_or http uri.scheme_str) https in
        connect_pinned hop is_https method uri host
          (unwrap_or (if is_https then 443 else 80) uri.port_u16) body egress ips
  ]

  unfoldable pub one_hop : ℕ → Method → Bytes → Option Bytes → EgressConfig → Traced Hop
  unfolding hop_to
  one_hop hop method url body egress = elim (net.parse url) [
    | none ↦ (fault bad_url, [])
    | some uri ↦
        let scheme : Bytes = unwrap_or http uri.scheme_str in
        if not (bytes_eq scheme http) && not (bytes_eq scheme https)
        then (fault bad_url, [])
        else hop_to hop method uri body egress uri.host
  ]

  -- Against a base that has been parsed.
  unfoldable pub redirect_from : Uri → Bytes → Option Bytes → Fetched Bytes
  redirect_from base location none = fault bad_url
  redirect_from base location (some authority) =
      let origin : Bytes = unwrap_or http base.scheme_str ++ codes "://" ++ authority in
      if starts_with (codes "/") location
      then fetched (origin ++ location)
      else fetched (origin ++ codes "/" ++ location)

  unfoldable pub resolve_redirect : Bytes → Bytes → Fetched Bytes
  unfolding redirect_from
  resolve_redirect current location =
      if contains (codes "://") location then fetched location else elim (net.parse current) [
        | none ↦ fault bad_url
        | some base ↦ redirect_from base location base.authority
      ]

  -- `timeout_at(deadline, one_hop(..))`: what is late counts as timed out.
  unfoldable pub timed_hop : ℕ → Method → Bytes → Option Bytes → EgressConfig → Traced Hop
  timed_hop hop method url body egress =
      let (answer, made) = one_hop hop method url body egress in
      (if net.in_time hop then answer else fault timed_out, made)

  abbrev pub answered : Hop → Next
  answered resp = finish (fetched (record { status = resp.status; body = resp.body }))

  abbrev pub follow_to : Fetched Bytes → Next
  follow_to (fetched url) = follow url
  follow_to (fault e) = finish (fault e)

  abbrev pub redirected : ℕ → Bytes → Hop → Option Bytes → Next
  redirected redirects current resp none = answered resp
  redirected redirects current resp (some loc) =
      if ltb max_redirects (redirects + 1)
      then finish (fault too_many_redirects)
      else follow_to (resolve_redirect current loc)

  unfoldable pub after_hop : ℕ → Bytes → Fetched Hop → Next
  after_hop redirects current (fault e) = finish (fault e)
  after_hop redirects current (fetched resp) =
      if leb 300 resp.status && ltb resp.status 400
      then redirected redirects current resp resp.location
      else answered resp

  -- The loop, on fuel; `redirects` is also the number of the hop. Without fuel it has no answer.
  unfoldable pub fetch_loop :
      ℕ → ℕ → Method → Bytes → Option Bytes → EgressConfig → Option (Traced HttpResponse)
  fetch_loop zero redirects method current body egress = none
  fetch_loop (suc fuel) redirects method current body egress =
      let (answer, made) = timed_hop redirects method current body egress in
      elim (after_hop redirects current answer) [
        | finish r ↦ some (r, made)
        | follow url ↦ elim (fetch_loop fuel (redirects + 1) method url body egress) [
          | none ↦ none
          | some (r, more) ↦ some (r, made ++ more)
        ]
      ]

  unfoldable pub fetch : Method → Bytes → Option Bytes → EgressConfig → Option (Traced HttpResponse)
  unfolding fetch_loop
  fetch method url body egress = fetch_loop (max_redirects + 1) 0 method url body egress
