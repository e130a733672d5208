-- ===== src/App/Tests.antt =====
-- Runs of the handler chain, and the theorems at inputs that meet their hypotheses.
use hertz_study.Base.{◌≤◌, ◌<◌, ◌≡◌, refl, true, [], ◌∷◌, ◌++◌, some, length, arith}
use hertz_study.App.Chain.{
  Handler, HandlersChain, Context, combine_handlers, increment, abort, is_aborted, call, next_loop,
  context_next, new_context,
}
use hertz_study.App.Chain.Order.{IsInOrder, context_next-InOrder, context_next-Aborted}
use hertz_study.App.Chain.Ends.{context_next-Ends}

abbrev recovery : Handler
recovery = Handler.next_then Handler.finish

abbrev auth : Handler
auth = Handler.abort_then Handler.finish

abbrev page : Handler
page = Handler.finish

abbrev open_chain : HandlersChain
open_chain = recovery ∷ page ∷ []

-- The handler behind one that aborts is not called.
denied :
    context_next 9 (recovery ∷ auth ∷ page ∷ []) new_context
    ≡ some (record { index = 65; started = 1 ∷ 0 ∷ [] })
unfolding context_next next_loop call increment abort
denied = refl

context_next-InOrder_example :
    (open_chain ≡ (recovery ∷ []) ++ (page ∷ [])) × IsInOrder (length open_chain) (1 ∷ 0 ∷ [])
unfolding combine_handlers context_next next_loop call increment
context_next-InOrder_example =
    context_next-InOrder (recovery ∷ []) (page ∷ []) open_chain 9
      (record { index = 3; started = 1 ∷ 0 ∷ [] }) refl refl

context_next-Ends_example :
    (c : Context) × ((context_next 3 open_chain new_context ≡ some c)
      × ((2 ≤ c.index) × (c.index < 128)))
unfolding combine_handlers
context_next-Ends_example =
    context_next-Ends (recovery ∷ []) (page ∷ []) open_chain 3 refl (omega arith, (omega arith, tt))
      (omega arith)

abbrev stopped : Context
stopped = record { index = 63; started = 0 ∷ [] }

context_next-Aborted_example :
    (context_next 1 open_chain stopped ≡ some (increment stopped))
    × ((is_aborted (increment stopped) ≡ true) × ((increment stopped).started ≡ 0 ∷ []))
unfolding combine_handlers is_aborted
context_next-Aborted_example =
    context_next-Aborted (recovery ∷ []) (page ∷ []) open_chain 0 stopped refl refl
      (λ e. absurd (ground (arith, e)))
