-- ===== src/Tunnel/Tests.antt =====
-- Runs of src/service/tunnel.rs, and instances of the theorems.
use ii.Prelude.{
  ℕ, ◌+◌, if◌then◌else◌, ◌-◌, ◌<◌, ◌≡◌, ◌↔◌, refl, Bool, true, false, ◌++◌, ltb, arith,
}
use ii.Prelude.Text.{Bytes, codes}
use ii.Tunnel.{
  tunnel_auth, check_auth, forwarding, unreachable, contacted, is_forwarding, turned_away, admit,
  serve_tunnel_stream, bind_tunnel_listener_from,
}
use ii.Tunnel.Admission.{serve_tunnel_stream_iff}
use ii.Tunnel.Ports.{FirstFree, bound, bind_tunnel_listener_from-FirstFree}

abbrev key : Bytes
key = codes "0123456789abcdef0123456789abcdef"

abbrev recv : Bytes
recv = tunnel_auth key ++ codes "GET /"

accepted_stream : serve_tunnel_stream key true recv 64 ≡ (63, forwarding (codes "GET /"))
unfolding serve_tunnel_stream tunnel_auth check_auth admit
accepted_stream = refl

busy_tunnel : serve_tunnel_stream key true recv 0 ≡ (0, turned_away 3)
unfolding serve_tunnel_stream tunnel_auth check_auth admit
busy_tunnel = refl

serve_tunnel_stream_iff_example :
    ((serve_tunnel_stream key true recv 64 ≡ (64 - 1, forwarding (codes "GET /")))
      ↔ ((recv ≡ tunnel_auth key ++ codes "GET /") × (0 < 64) × (true ≡ true)))
    × ((serve_tunnel_stream key true recv 64).0
          + (if is_forwarding (serve_tunnel_stream key true recv 64).1 then 1 else 0)
        ≡ 64)
    × ((contacted (serve_tunnel_stream key true recv 64).1 ≡ true)
        ↔ (((rest : Bytes) × (recv ≡ tunnel_auth key ++ rest)) × (0 < 64)))
serve_tunnel_stream_iff_example = serve_tunnel_stream_iff key recv (codes "GET /") true 64 refl

target_refuses : serve_tunnel_stream key false recv 64 ≡ (64, unreachable)
unfolding serve_tunnel_stream tunnel_auth check_auth admit
target_refuses = refl

abbrev from_8082 : ℕ → Bool
from_8082 port = ltb 8081 port

bind_tunnel_listener_from-FirstFree_example :
    FirstFree from_8082 8080 65536 (bound from_8082 (bind_tunnel_listener_from from_8082 8080))
bind_tunnel_listener_from-FirstFree_example =
    bind_tunnel_listener_from-FirstFree from_8082 8080 (omega arith)
