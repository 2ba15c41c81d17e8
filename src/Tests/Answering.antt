-- ===== src/Tests/Answering.antt =====
-- A request's answers, and a request that is forwarded.
use elliptics.Prelude.{◌≡◌, refl, true, some, [], ◌∷◌, arith, success}
use elliptics.Packet.{Cmd, has_flag, trans_reply, tid_of}
use elliptics.Answer.{trans_forward, complete_forward}
use elliptics.Answer.Headers.{EndsOnce, exchange, replies_end, forward_back}

-- A request with DNET_FLAGS_NEED_ACK.
abbrev request : Cmd
request = record {
  id = record { id = []; group_id = 1 };
  trace_id = 0;
  status = 0;
  cmd = 5;
  flags = 1;
  trans = 33;
  size = 0;
}

replies_end_example :
    EndsOnce request (exchange request (λ a d. success) ((1 ∷ []) ∷ []) (2 ∷ []) (λ a. 0) 0)
replies_end_example = replies_end request (λ a d. success) (λ a. 0) 0 ((1 ∷ []) ∷ []) (2 ∷ []) refl

forward_back_example :
    ((trans_forward 9 request).1 ≡ record request { trans = 9 })
    × ((b : Cmd) × (complete_forward true (λ c. success) (trans_forward 9 request).0 request
          ≡ (success, some b))
        × (has_flag b.trans trans_reply ≡ true)
        × (tid_of b.trans ≡ 33)
        × (record b { trans = 33 } ≡ request))
forward_back_example = forward_back 9 request request (λ c. success) (omega arith) refl
