-- ===== src/Conversation/History.antt =====
-- The bounded history of `ConversationTurnManager` (python/tom/voice/turn_manager.py) as a window of all
-- records.
use tom.Prelude.{
  either, ℕ, zero, suc, ◌-◌, ◌≤◌, String, ◌≡◌, refl, sym, ap, ◌∙◌, Bool, false, Option, none, some,
  List, [], ◌∷◌, ◌++◌, length, length-append, ltb, arith, Bool-cases, inl, inr,
}
use tom.Dict.{get, put, Dict}
use tom.Streaming.Text.{drop}
use tom.Conversation.Manager.{
  fits_referent, drop_first, TurnStatus, completed, interrupted, EntityReferent, TurnRecord,
  TurnContext, ConversationTurnManager, new, append, start_turn, register_referent, close,
  record_assistant_reply, interrupt_turn, reset, fits_record, closing,
}
use tom.Conversation.ToolCalls.{
  Value, TextMethods, last_tool, referent_of, tool_referent_rules, add_referent, record_tool_call,
}

pub data Call : Type 0 where
  starts : String → String → List String → Dict EntityReferent → Call
  registers : EntityReferent → Bool → Call
  replies : Option TurnContext → String → List String → Call
  interrupts : Option TurnContext → String → Call
  resets : Call
  calls_tool : TextMethods → String → String → Dict Value → Bool → Call

-- The records that calls have returned since the last reset.
abbrev pub logged : List TurnRecord → Option TurnRecord → List TurnRecord
logged log none = log
logged log (some r) = log ++ r ∷ []

abbrev with_log :
    List TurnRecord
    → ConversationTurnManager × Option TurnRecord
    → ConversationTurnManager × List TurnRecord
with_log log (m, o) = (m, logged log o)

unfoldable pub call :
    Call → ConversationTurnManager × List TurnRecord → ConversationTurnManager × List TurnRecord
unfolding start_turn register_referent record_tool_call record_assistant_reply interrupt_turn
call (starts id text tools given) (m, log) = ((start_turn id text tools given m).0, log)
call (registers r of_current) (m, log) = ((register_referent r of_current m).0, log)
call (replies context text tools) (m, log) =
    with_log log (record_assistant_reply context text tools m)
call (interrupts context text) (m, log) = with_log log (interrupt_turn context text m)
call resets (m, log) = (reset m, [])
call (calls_tool py turn_id name params of_current) (m, log) =
    ((record_tool_call py turn_id name params of_current m).0, log)

unfoldable pub run :
    List Call
    → ConversationTurnManager × List TurnRecord
    → ConversationTurnManager × List TurnRecord
unfolding call
run [] s = s
run (c ∷ cs) s = run cs (call c s)

-- The last n records.
abbrev pub last : ℕ → List TurnRecord → List TurnRecord
last n rs = drop (length rs - n) rs

length-drop : (k : ℕ) (rs : List TurnRecord) → length (drop k rs) ≡ length rs - k
length-drop zero rs = omega arith
length-drop (suc k) [] = omega arith
length-drop (suc k) (r ∷ rs) = length-drop k rs ∙ omega arith

drop-append :
    (k : ℕ) (rs ss : List TurnRecord) → k ≤ length rs → drop k (rs ++ ss) ≡ drop k rs ++ ss
drop-append zero rs ss h = refl
drop-append (suc k) [] ss h = absurd (omega (arith, h))
drop-append (suc k) (r ∷ rs) ss h = drop-append k rs ss (omega (arith, h))

drop-drop : (k : ℕ) (rs : List TurnRecord) → drop (suc k) rs ≡ drop 1 (drop k rs)
drop-drop zero rs = refl
drop-drop (suc k) [] = refl
drop-drop (suc k) (r ∷ rs) = drop-drop k rs

first-drop : (rs : List TurnRecord) → drop_first rs ≡ drop 1 rs
first-drop [] = refl
first-drop (r ∷ rs) = refl

-- The deque of the last records, with one more, has the last records of one more.
append-last :
    (n : ℕ) (r : TurnRecord) (rs : List TurnRecord)
    → 1 ≤ n
    → append n r (last n rs) ≡ last n (rs ++ r ∷ [])
unfolding append
append-last n r rs h = elim (Bool-cases (ltb (length rs) n)) [
  | inl e ↦
      let a : length rs - n ≡ 0 = ground (arith, e) in
      let b : length (rs ++ r ∷ []) - n ≡ 0 = ground (arith, e, length-append rs (r ∷ [])) in
      rw (a, b, e) refl
  | inr e ↦
      let k = length rs - n in
      let a : length (rs ++ r ∷ []) - n ≡ suc (length rs - n) =
        ground (arith, e, length-append rs (r ∷ [])) in
      let b : ltb (length (drop (length rs - n) rs)) n ≡ false =
        ground (arith, e, length-drop (length rs - n) rs) in
      let c : length rs - n ≤ length rs = omega arith in
      rw (a, b)
        (first-drop (drop k rs ++ r ∷ [])
          ∙ ap (drop 1) (sym (drop-append k rs (r ∷ []) c))
          ∙ sym (drop-drop k (rs ++ r ∷ [])))
]

abbrev pub IsWindow : ConversationTurnManager × List TurnRecord → Type 0
IsWindow (m, log) = (1 ≤ m.max_history_turns) × (m.history ≡ last m.max_history_turns log)

close-IsWindow :
    (context : Option TurnContext) (text : String) (tools : List String) (status : TurnStatus)
    (m : ConversationTurnManager) (log : List TurnRecord)
    → IsWindow (m, log)
    → IsWindow (with_log log (close context text tools status m))
unfolding close
close-IsWindow context text tools status m log (n, e) =
    elim (Bool-cases (fits_record (closing context text tools status m))) [
      | inl f ↦
          rw (f, close)
            (
              n,
              ap (append m.max_history_turns (closing context text tools status m)) e
                  ∙ append-last m.max_history_turns (closing context text tools status m) log n,
            )
      | inr f ↦ rw (f, close) (n, e)
    ]

-- A step that keeps the history.
kept-IsWindow :
    (m m' : ConversationTurnManager) (log : List TurnRecord)
    → (m'.history ≡ m.history) × (m'.max_history_turns ≡ m.max_history_turns)
    → IsWindow (m, log)
    → IsWindow (m', log)
kept-IsWindow m m' log (h, n) w = rw (h, n) w

drop_nil : (k : ℕ) → drop {A = TurnRecord} k [] ≡ []
drop_nil zero = refl
drop_nil (suc k) = refl

start_turn-IsWindow :
    (id text : String) (tools : List String) (given : Dict EntityReferent)
    (m : ConversationTurnManager) (log : List TurnRecord)
    → IsWindow (m, log)
    → IsWindow ((start_turn id text tools given m).0, log)
unfolding start_turn
start_turn-IsWindow id text tools given m log h =
    kept-IsWindow m (start_turn id text tools given m).0 log (ground arith) h

register_referent-IsWindow :
    (r : EntityReferent) (b : Bool) (m : ConversationTurnManager) (log : List TurnRecord)
    → IsWindow (m, log)
    → IsWindow ((register_referent r b m).0, log)
unfolding register_referent
register_referent-IsWindow r b m log h =
    kept-IsWindow m (register_referent r b m).0 log (ground arith) h

add_referent-kept :
    (used : EntityReferent) (o : Option EntityReferent) (b : Bool) (m : ConversationTurnManager)
    → ((add_referent used o b m).0.history ≡ m.history)
      × ((add_referent used o b m).0.max_history_turns ≡ m.max_history_turns)
unfolding add_referent
add_referent-kept used none b m = (refl, refl)
add_referent-kept used (some r) b m = ground arith

record_tool_call-IsWindow :
    (py : TextMethods) (id name : String) (params : Dict Value) (b : Bool)
    (m : ConversationTurnManager) (log : List TurnRecord)
    → IsWindow (m, log)
    → IsWindow ((record_tool_call py id name params b m).0, log)
unfolding record_tool_call
record_tool_call-IsWindow py id name params b m log h =
    let used = last_tool id name in
    let m' : ConversationTurnManager = record m { referents = put m.referents "last_tool" used } in
    let o = referent_of py id params (get tool_referent_rules name) in
    either (λ s. IsWindow (s.0, log)) (fits_referent used) (add_referent used o b m') (m, none)
      (λ _. kept-IsWindow m' (add_referent used o b m').0 log (add_referent-kept used o b m') h)
      (λ _. h)

call-IsWindow :
    (c : Call) (m : ConversationTurnManager) (log : List TurnRecord)
    → IsWindow (m, log)
    → IsWindow (call c (m, log))
unfolding call record_assistant_reply interrupt_turn
call-IsWindow (starts id text tools given) m log h = start_turn-IsWindow id text tools given m log h
call-IsWindow (registers r b) m log h = register_referent-IsWindow r b m log h
call-IsWindow (replies context text tools) m log h =
    close-IsWindow context text tools completed m log h
call-IsWindow (interrupts context text) m log h = close-IsWindow context text [] interrupted m log h
call-IsWindow resets m log h = (h.0, sym (drop_nil (0 - m.max_history_turns)))
call-IsWindow (calls_tool py id name params b) m log h =
    record_tool_call-IsWindow py id name params b m log h

run-IsWindow_from :
    (cs : List Call) (s : ConversationTurnManager × List TurnRecord)
    → IsWindow s
    → IsWindow (run cs s)
unfolding run
run-IsWindow_from [] s h = h
run-IsWindow_from (c ∷ cs) (m, log) h =
    run-IsWindow_from cs (call c (m, log)) (call-IsWindow c m log h)

-- After any calls on a new manager that keeps at least one turn, its history is the last of the
-- records that have been returned since the last reset, as many as it keeps, or all if there are
-- not so many.
pub run-IsWindow : (n : ℕ) (cs : List Call) → 1 ≤ n → IsWindow (run cs (new n, []))
run-IsWindow n cs h = run-IsWindow_from cs (new n, []) (h, sym (drop_nil (0 - n)))
