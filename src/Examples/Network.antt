-- ===== src/Examples/Network.antt =====
-- Addresses, and a fetch that is led to the address of a metadata service.
use rollout.Prelude.{
  ℕ, zero, suc, ◌+◌, ◌≡◌, ◌≤◌, true, false, List, [], ◌∷◌, some, none, arith, length, All, codes,
}
use rollout.Egress.Filter.{Ipv4Addr, IpAddr, v4, blocked_v4, blocked_range}
use rollout.Egress.Cidr.{number, in_any, forbidden, is_some, blocked_v4_iff_forbidden}
use rollout.Egress.Fetch.{Method, fetched, HttpResponse, Net, Traced, max_redirects, fetch}
use rollout.Egress.Safety.{fetch-stays_out}

abbrev public : Ipv4Addr
public = record { o0 = 93; o1 = 184; o2 = 216; o3 = 34 }

abbrev metadata : Ipv4Addr
metadata = record { o0 = 169; o1 = 254; o2 = 169; o3 = 254 }

blocked_v4_iff_forbidden_example :
    is_some (blocked_v4 metadata) ≡ in_any (number metadata) forbidden
blocked_v4_iff_forbidden_example =
    blocked_v4_iff_forbidden metadata
      (record { h0 = omega arith; h1 = omega arith; h2 = omega arith; h3 = omega arith })

abbrev at_hop : ℕ → List IpAddr
at_hop zero = v4 public ∷ []
at_hop (suc n) = v4 metadata ∷ []

-- Every answer is a redirect, and from the second hop on the name resolves to the metadata address.
instance abbrev pub rebinding : Net
rebinding = record {
  parse = λ url. some (record {
    scheme_str = some (codes "http");
    host = some (codes "h");
    authority = some (codes "h");
    port_u16 = none;
  });
  resolve = λ hop host. some (at_hop hop);
  send = λ hop https method uri host addr body.
      fetched (record { status = 302; location = some (codes "/"); body = [] });
  in_time = λ hop. true;
}

fetch-stays_out_example :
    (t : Traced HttpResponse) × (fetch Method.get
        (codes "http://h/")
        none
        (record { allowlist = []; allow_loopback = false })
      ≡ some t)
    × All (λ addr. blocked_range addr.ip ≡ none) t.1
    × (length t.1 ≤ max_redirects + 1)
fetch-stays_out_example = fetch-stays_out Method.get (codes "http://h/") none []
