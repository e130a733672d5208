-- ===== src/App/Chain/Ends.antt =====
-- A chain of handlers that call `Next` at most once each runs to its end.
use hertz_study.Base.{
  ℕ, zero, suc, ◌+◌, ◌%◌, ◌≤◌, ◌<◌, ◌≡◌, refl, ap, ◌∙◌, [], ◌∷◌, Option, some, ◌>>=◌, length,
  get_elem?, All, ltb, arith, ◌⊎◌, inl, inr, Bool-cases,
}
use hertz_study.App.Chain.{
  Handler, HandlersChain, Context, combine_handlers, increment, abort, call, started_at, next_loop,
  context_next, new_context,
}
use hertz_study.App.Chain.Order.{loop-Stop, loop-Run, combine_handlers_lem}

abbrev pub next_count : Handler → ℕ
next_count Handler.finish = 0
next_count (Handler.next_then rest) = suc (next_count rest)
next_count (Handler.abort_then rest) = next_count rest

abbrev pub Single : Handler → Type 0
Single h = next_count h ≤ 1

-- The index behind the loop: past the chain, and not far past it.
record IsPast (size from : ℕ) (c : Context) : Type 0 where
  past : size ≤ c.index
  near : c.index + from ≤ 65 + size

abbrev Ran : Option Context → (Context → Type 0) → Type 0
Ran o p = (c : Context) × ((o ≡ some c) × p c)

Ran-bind :
    (o : Option Context) (f : Context → Option Context) (p q : Context → Type 0)
    → Ran o p
    → ((c : Context) → p c → Ran (f c) q)
    → Ran (o >>= f) q
Ran-bind o f p q (c, (is, holds)) rest =
    let (d, (ran, done)) = rest c holds in
    (d, (ap (λ (x : Option Context). x >>= f) is ∙ ran, done))

-- A handler without `Next` leaves the index, or aborts.
call-Quiet :
    (next : Context → Option Context) (h : Handler) (c : Context)
    → next_count h ≡ 0
    → Ran (call next h c) (λ d. (d.index ≡ c.index) ⊎ (d.index ≡ 63))
unfolding call abort
call-Quiet next Handler.finish c h = (c, (refl, inl refl))
call-Quiet next (Handler.next_then rest) c h = absurd (omega arith)
call-Quiet next (Handler.abort_then rest) c h =
    let (d, (ran, place)) = call-Quiet next rest (abort c) h in (d, (ran, ground arith))

-- How `Next` ends when a handler at position `from` calls it, and the handler itself.
abbrev NextEnds : ℕ → ℕ → (Context → Option Context) → Type 0
NextEnds size from next =
    (c : Context) → (c.index ≡ from) ⊎ (c.index ≡ 63) → Ran (next c) (IsPast size (suc from))

abbrev After : ℕ → ℕ → Context → Type 0
After size from d = (d.index ≡ from) ⊎ IsPast size (suc from) d

call-Ends :
    (size from : ℕ) (next : Context → Option Context) (h : Handler) (c : Context)
    → size < 63
    → from < size
    → NextEnds size from next
    → Single h
    → (c.index ≡ from) ⊎ (c.index ≡ 63)
    → Ran (call next h c) (After size from)
unfolding call abort
call-Ends size from next Handler.finish c small inside n one (inl stays) = (c, (refl, inl stays))
call-Ends size from next Handler.finish c small inside n one (inr aborted) =
    (c, (refl, inr (record { past = omega arith; near = omega arith })))
call-Ends size from next (Handler.abort_then rest) c small inside n one place =
    call-Ends size from next rest (abort c) small inside n one (inr refl)
call-Ends size from next (Handler.next_then rest) c small inside n one place =
    Ran-bind (next c) (call next rest) (IsPast size (suc from)) (After size from) (n c place)
      (λ d past.
        let (d', (ran, at)) = call-Quiet next rest d (omega arith) in
        (d', (ran, inr (after_quiet size from d d' small inside past at))))
  where
    after_quiet :
        (size from : ℕ) (d d' : Context)
        → size < 63
        → from < size
        → IsPast size (suc from) d
        → (d'.index ≡ d.index) ⊎ (d'.index ≡ 63)
        → IsPast size (suc from) d'
    after_quiet size from d d' small inside past (inl same) = record {
      past = omega (arith, past.past);
      near = omega (arith, past.near);
    }
    after_quiet size from d d' small inside past (inr aborted) = record {
      past = omega arith;
      near = omega arith;
    }

found-Single :
    (chain : HandlersChain) (i : ℕ)
    → All Single chain
    → i < length chain
    → (h : Handler) × ((get_elem? chain i ≡ some h) × Single h)
found-Single [] i _ below = absurd (omega arith)
found-Single (h ∷ chain) zero (one, _) below = (h, (refl, one))
found-Single (h ∷ chain) (suc i) (_, all) below = found-Single chain i all (omega arith)

-- The loop at an index that is not past the chain.
abbrev LoopEnds : HandlersChain → ℕ → Type 0
LoopEnds chain fuel =
    (c : Context)
    → c.index ≤ length chain
    → length chain < fuel + c.index
    → Ran (next_loop fuel chain c) (IsPast (length chain) c.index)

stop-Past :
    (chain : HandlersChain) (fuel : ℕ) (c : Context)
    → length chain < 63
    → length chain < fuel + length chain
    → length chain ≤ c.index
    → c.index < 128
    → next_loop fuel chain c ≡ some c
stop-Past chain zero c small room past inside = absurd (omega arith)
stop-Past chain (suc fuel) c small room past inside =
    loop-Stop fuel chain c small (ground arith) (ground arith)

again-Ends :
    (chain : HandlersChain) (fuel from : ℕ)
    → length chain < 63
    → from < length chain
    → length chain < fuel + suc from
    → LoopEnds chain fuel
    → NextEnds (length chain) from (λ d. next_loop fuel chain (increment d))
unfolding increment
again-Ends chain fuel from small inside room ends c (inl here) =
    let step : (c.index + 1) % 256 ≡ suc from = omega (arith, here) in
    let (d, (ran, past)) = ends (increment c) (omega (arith, step)) (omega (arith, step)) in
    (d, (ran, record { past = past.past; near = omega (arith, past.near, step) }))
again-Ends chain fuel from small inside room ends c (inr aborted) =
    let step : (c.index + 1) % 256 ≡ 64 = omega (arith, aborted) in
    (
      increment c,
      (
        stop-Past chain fuel (increment c) small (omega (arith, room, inside)) (omega (arith, step))
            (omega (arith, step)),
        record { past = omega (arith, step); near = omega (arith, step) },
      ),
    )

After-Ends :
    (chain : HandlersChain) (fuel from : ℕ) (d : Context)
    → length chain < 63
    → from < length chain
    → length chain < fuel + suc from
    → LoopEnds chain fuel
    → After (length chain) from d
    → Ran (next_loop fuel chain (increment d)) (IsPast (length chain) from)
unfolding increment
After-Ends chain fuel from d small inside room ends (inl here) =
    let (d', (ran, past)) = again-Ends chain fuel from small inside room ends d (inl here) in
    (d', (ran, record { past = past.past; near = omega (arith, past.near) }))
After-Ends chain fuel from d small inside room ends (inr gone) =
    let step : (d.index + 1) % 256 ≡ d.index + 1 = omega (arith, gone.near) in
    (
      increment d,
      (
        stop-Past chain fuel (increment d) small (omega (arith, room, inside))
            (omega (arith, step, gone.past)) (omega (arith, step, gone.near)),
        record { past = omega (arith, step, gone.past); near = omega (arith, step, gone.near) },
      ),
    )

loop-Ends :
    (chain : HandlersChain) (fuel : ℕ) → length chain < 63 → All Single chain → LoopEnds chain fuel
loop-Ends chain zero small all c inside room = absurd (omega arith)
loop-Ends chain (suc fuel) small all c inside room =
    elim (Bool-cases (ltb c.index (length chain))) [
      | inr over ↦ (
        c,
        (
          loop-Stop fuel chain c small (ground arith) over,
          record { past = ground arith; near = omega arith },
        ),
      )
      | inl more ↦
          let here : c.index < length chain = ground arith in
          let again : Context → Option Context = λ d. next_loop fuel chain (increment d) in
          let ends = loop-Ends chain fuel small all in
          let (h, (found, one)) = found-Single chain c.index all here in
          let nexts = again-Ends chain fuel c.index small here (omega (arith, room)) ends in
          let called =
            call-Ends (length chain) c.index again h (started_at c) small here nexts one
              (inl refl) in
          let (d, (ran, past)) =
            Ran-bind (call again h (started_at c)) again (After (length chain) c.index)
              (IsPast (length chain) c.index) called
              (λ e after.
                After-Ends chain fuel c.index e small here (omega (arith, room)) ends after) in
          let handle : Handler → Option Context = λ x. call again x (started_at c) >>= again in
          (
            d,
            (
              loop-Run fuel chain c small (ground arith) more
                  ∙ ap (λ (o : Option Handler). o >>= handle) found
                  ∙ ran,
              past,
            ),
          )
    ]

-- A chain that `combineHandlers` accepts, of handlers that call `Next` at most once each, runs to its
-- end without a panic, wherever they abort; its index ends past the chain, and below 128, so that it
-- has not wrapped around. A call for each handler and one more are enough rounds.
pub context_next-Ends :
    (group handlers chain : HandlersChain) (fuel : ℕ)
    → combine_handlers group handlers ≡ some chain
    → All (λ (h : Handler). next_count h ≤ 1) chain
    → length chain < fuel
    → (c : Context) × ((context_next fuel chain new_context ≡ some c)
        × ((length chain ≤ c.index) × (c.index < 128)))
unfolding context_next increment
context_next-Ends group handlers chain fuel built all room =
    let (_, small) = combine_handlers_lem group handlers chain built in
    let (c, (ran, past)) =
      loop-Ends chain fuel small all (increment new_context) (omega arith) (omega (arith, room)) in
    (c, (ran, (past.past, omega (arith, past.near, small))))
