-- ===== src/Conversation/Examples.antt =====
-- Concrete calls of `ConversationTurnManager` (python/tom/voice/turn_manager.py).
use tom.Prelude.{true, Option, some, none, String, ◌≡◌, refl, List, [], ◌∷◌, none, arith, map}
use tom.Dict.{get, put}
use tom.Conversation.ToolCalls.{TextMethods, scalar}
use tom.Conversation.Manager.{EntityReferent, new}
use tom.Conversation.History.{
  calls_tool, Call, starts, replies, interrupts, run, IsWindow, run-IsWindow,
}

abbrev three_turns : List Call
three_turns =
    starts "turn_1" "hello" [] []
    ∷ replies none "hi" []
    ∷ starts "turn_2" "read it" [] []
    ∷ interrupts none "it s"
    ∷ starts "turn_3" "go on" [] []
    ∷ replies none "done" []
    ∷ []

last_two : map (λ r. r.turn_id) (run three_turns (new 2, [])).0.history ≡ "turn_2" ∷ "turn_3" ∷ []
unfolding run
last_two = refl

run-IsWindow_example : IsWindow (run three_turns (new 2, []))
run-IsWindow_example = run-IsWindow 2 three_turns (omega arith)

abbrev as_is : TextMethods
as_is = record { strip = λ s. s; cut = λ s. s }

abbrev reading : List Call
reading =
    starts "turn_1" "read it" [] []
    ∷ calls_tool as_is "turn_1" "files.read_file" (("path", scalar "a.txt") ∷ []) true
    ∷ []

abbrev value_of : Option EntityReferent → String
value_of none = ""
value_of (some r) = r.value

last_file : value_of (get (run reading (new 2, [])).0.referents "last_file") ≡ "a.txt"
unfolding run get put
last_file = refl
