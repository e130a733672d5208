-- ===== src/App/Chain.antt =====
-- The handler chain of a `RequestContext` of pkg/app/context.go, and how pkg/route/routergroup.go
-- builds it. `index` is an int8, kept as its 8-bit pattern.
pub mod Order
pub mod Ends
use hertz_study.Base.{
  ℕ, zero, suc, ◌+◌, ◌%◌, Bool, true, false, List, [], ◌∷◌, ◌++◌, Option, none, some, ◌>>=◌, length,
  get_elem?, ltb, leb, if◌then◌else◌,
}

-- What a handler does with the chain, in order. What else it does is left out.
pub data Handler : Type 0 where
  finish : Handler
  next_then abort_then : Handler → Handler

abbrev pub HandlersChain : Type 0
HandlersChain = List Handler

-- `started` has the positions of the handlers that were called, the last one first.
pub record Context : Type 0 where
  pub index : ℕ
  pub started : List ℕ

-- `math.MaxInt8 / 2`
abbrev pub abort_index : ℕ
abort_index = 63

-- `combineHandlers`; `none` is its panic.
unfoldable pub combine_handlers : HandlersChain → HandlersChain → Option HandlersChain
combine_handlers group handlers =
    if leb abort_index (length group + length handlers) then none else some (group ++ handlers)

unfoldable pub increment : Context → Context
increment c = record c { index = (c.index + 1) % 256 }

unfoldable pub abort : Context → Context
abort c = record c { index = abort_index }

unfoldable pub is_aborted : Context → Bool
is_aborted c = if ltb c.index 128 then leb abort_index c.index else false

-- Runs a handler, with `next` for `Next`. `none` is a panic.
unfoldable pub call : (Context → Option Context) → Handler → Context → Option Context
call next finish c = some c
call next (next_then rest) c = next c >>= call next rest
call next (abort_then rest) c = call next rest (abort c)

abbrev pub started_at : Context → Context
started_at c = record c { started = c.index ∷ c.started }

-- `a < b` on the patterns of int8 numbers.
abbrev pub signed_below : ℕ → ℕ → Bool
signed_below a b = ltb ((a + 128) % 256) ((b + 128) % 256)

-- `ctx.handlers[ctx.index]`, which panics at a negative index.
abbrev pub handler_at : HandlersChain → ℕ → Option Handler
handler_at chain i = if ltb i 128 then get_elem? chain i else none

-- The loop of `Next`, from the first increment on, for at most `fuel` calls. The length of the chain
-- is converted to an int8.
unfoldable pub next_loop : ℕ → HandlersChain → Context → Option Context
next_loop zero chain c = none
next_loop (suc fuel) chain c =
    let next : Context → Option Context = λ d. next_loop fuel chain (increment d) in
    let run = handler_at chain c.index >>= λ h. call next h (started_at c) >>= next in
    if signed_below c.index (length chain % 256) then run else some c

-- `Next`.
unfoldable pub context_next : ℕ → HandlersChain → Context → Option Context
context_next fuel chain c = next_loop fuel chain (increment c)

-- A context whose chain has not started: its index is -1.
abbrev pub new_context : Context
new_context = record { index = 255; started = [] }
