-- ===== src/Peer/Traversal/Tests.antt =====
-- A peer with one address in the local network and one behind its router, in internet mode: the
-- second wait finds it.
use korik.Candidates.{
  Candidate, CandidateType, Net, address, goes_first, host, insert, is_v6, prioritize, same_type,
  srflx, step_direct_lan, step_for, step_public_udp, str_lt,
}
use korik.Peer.Traversal.Waits.{milliseconds}
use korik.Peer.Traversal.Bounded.{connect_with_candidates-ends}
use korik.Peer.Traversal.{
  Course, Network, connect_by_udp, connect_with_candidates, connects_to, punch_all, punches,
  reports, same_step, try_best_srflx, try_punching, try_tcp, wait_for_peer, waits_for_peer,
}
use korik.Prelude.{
  Bool, List, Str, [], bytes, contains, false, int_eq, leb, none, pos, pos_part, refl, starts_with,
  str_eq, true, ℕ, ◌++◌, ◌-◌, ◌<◌, ◌∷◌, ◌≡◌, ◌≤◌,
}

-- Addresses do not parse, so none of them is an IPv6 address; a port is its bytes.
abbrev net : Net
net = record { parse_ip = λ s. none; itoa = λ n. pos_part n ∷ [] }

abbrev candidate : CandidateType → Str → Candidate
candidate kind transport = record {
  id = bytes "c";
  kind = kind;
  ip = bytes "10.0.0.1";
  port = pos 77;
  iface = [];
  transport = transport;
  priority = pos 1000;
}

abbrev candidates : List Candidate
candidates = candidate host (bytes "tcp") ∷ candidate srflx (bytes "udp") ∷ []

abbrev network : Network
network i = leb 1 i

abbrev way : Course × Bool
way = connect_with_candidates net network true candidates

abbrev public_address : Str
public_address = bytes "10.0.0.1:" ++ 77 ∷ []

the_way : way ≡ (
  record {
    actions =
        reports step_direct_lan
        ∷ connects_to public_address
        ∷ waits_for_peer 2
        ∷ reports step_public_udp
        ∷ punches public_address
        ∷ waits_for_peer 3
        ∷ reports step_public_udp
        ∷ [];
    waited = 2;
  },
  true,
)
unfolding connect_with_candidates connect_by_udp try_tcp try_best_srflx try_punching punch_all
    wait_for_peer prioritize insert goes_first str_lt step_for same_step is_v6 same_type address
    contains starts_with str_eq int_eq
the_way = refl

connect_with_candidates-ends_example :
    (milliseconds way.0.actions ≤ 32_800)
    × (way.1 ≡ false → (i : ℕ) → i < way.0.waited → network i ≡ false)
    × (way.1 ≡ true → (0 < way.0.waited) × (network (way.0.waited - 1) ≡ true))
connect_with_candidates-ends_example = connect_with_candidates-ends net network true candidates

-- With no wait that finds the peer the way has three waits and ends in the last stage.
abbrev lost : Course × Bool
lost = connect_with_candidates net (λ i. false) true candidates

lost_milliseconds : (lost.1 ≡ false) × (milliseconds lost.0.actions ≡ 12_300) × (lost.0.waited ≡ 3)
unfolding connect_with_candidates connect_by_udp try_tcp try_best_srflx try_punching punch_all
    wait_for_peer prioritize insert goes_first str_lt step_for same_step is_v6 same_type address
    contains starts_with str_eq int_eq milliseconds
lost_milliseconds = (refl, refl, refl)
