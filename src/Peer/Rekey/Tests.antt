-- ===== src/Peer/Rekey/Tests.antt =====
-- Two peers rotate their session key, run on small inputs.
use korik.Prelude.{
  Str, [], ap, arith, bytes, false, length, none, refl, some, str_eq, str_key, ◌++◌, ◌+◌, ◌∷◌, ◌≡◌,
}
use korik.GoMap.{get, put, remove}
use korik.Peer.Rekey.{
  Curve, Keys, exchange, handle_rekey, initiate_rekey, maybe_rekey, mix_keys, rotate,
}
use korik.Peer.Rekey.Pair.{
  IsExchange, Pair, Run, View, asks, here, left_asks, left_key, left_step, left_takes, right_key,
  right_step, swap, takes,
}
use korik.Peer.Rekey.Agreement.{keys-agree}
use korik.Peer.Rekey.Stale.{reconnect, right_rotates, right_rotates-reconnect}
use korik.Peer.Rekey.Timer.{is_overdue, maybe_rekey-overdue}

-- A curve on which a key is its length, and a hash that keeps its argument.
abbrev curve : Curve
curve = record {
  public_hex = λ e. e;
  parse = λ s. some s;
  ecdh = λ e s. some ((length e + length s) ∷ []);
  sha256 = λ s. s;
}

abbrev curve_exchange : IsExchange curve
curve_exchange = record {
  shared = λ e f. (length e + length f) ∷ [];
  parsed = λ e. e;
  parse_public = λ e. refl;
  ecdh_public = λ e f. refl;
  shared_comm = λ e f. ap (λ n. n ∷ []) (omega arith);
}

abbrev node : Str → Keys
node addr = record { sessions = (addr, some (7 ∷ [])) ∷ []; slots = []; last_rekey = [] }

abbrev two : Pair
two = record {
  left = node (1 ∷ []);
  right = node (2 ∷ []);
  right_addr = 1 ∷ [];
  left_addr = 2 ∷ [];
  to_right = [];
  to_left = [];
}

two-View : View two (some (7 ∷ [])) (some (7 ∷ [])) none none [] []
unfolding get str_eq
two-View = (refl, refl, refl, refl, refl, refl)

-- The left node asks, the right one answers, and the left one takes the answer.
abbrev asking : Pair
asking = left_asks curve two (3 ∷ [])

abbrev answering : Pair
answering = swap (left_takes curve (swap asking) (3 ∷ []) [] (4 ∷ 5 ∷ []) 9)

abbrev finished : Pair
finished = left_takes curve answering (4 ∷ 5 ∷ []) [] [] 10

Run-two : Run curve two finished
unfolding left_asks left_takes initiate_rekey handle_rekey exchange rotate get put remove str_eq
Run-two =
    left_step
      (right_step (left_step here (asks (3 ∷ []) refl refl))
        (takes (3 ∷ []) [] (4 ∷ 5 ∷ []) 9 refl refl))
      (takes (4 ∷ 5 ∷ []) [] [] 10 refl refl)

finished-to_right : finished.to_right ≡ []
unfolding left_asks left_takes initiate_rekey handle_rekey exchange rotate get put remove str_eq
finished-to_right = refl

finished-to_left : finished.to_left ≡ []
unfolding left_asks left_takes initiate_rekey handle_rekey exchange rotate get put remove str_eq
finished-to_left = refl

keys-agree_example : left_key finished ≡ right_key finished
keys-agree_example =
    keys-agree curve curve_exchange two finished (7 ∷ []) two-View Run-two finished-to_right
      finished-to_left

-- The key that both then have.
finished_key : left_key finished ≡ some (bytes "korik-rekey-v1:" ++ 7 ∷ bytes "|" ++ 3 ∷ [])
unfolding left_asks left_takes initiate_rekey handle_rekey exchange rotate mix_keys get put remove
    str_eq
finished_key = refl

right_rotates-reconnect_example :
    let u = right_rotates curve (reconnect asking (9 ∷ []) (8 ∷ [])) (4 ∷ 5 ∷ []) [] 20 in
    View u (some (mix_keys curve (8 ∷ []) (3 ∷ []))) (some (8 ∷ [])) none (some (4 ∷ 5 ∷ [])) [] []
unfolding get
right_rotates-reconnect_example =
    right_rotates-reconnect curve curve_exchange two (7 ∷ []) (8 ∷ []) (3 ∷ []) (4 ∷ 5 ∷ []) []
      (9 ∷ []) 20 two-View refl

maybe_rekey-overdue_test :
    let n' = (maybe_rekey curve (λ addr. 3 ∷ addr) 700 two.left).0 in
    (is_overdue n' (1 ∷ []) 700 ≡ false)
    × (is_overdue two.left (1 ∷ []) 700 ≡ false → get n'.slots (1 ∷ []) ≡ none)
unfolding get str_eq
maybe_rekey-overdue_test = maybe_rekey-overdue curve (λ addr. 3 ∷ addr) 700 two.left (1 ∷ [])
