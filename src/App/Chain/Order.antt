-- ===== src/App/Chain/Order.antt =====
-- The handlers of a chain are called in order, each at most once, and none after `Abort`.
use hertz_study.Base.{
  ℕ, zero, suc, ◌+◌, ◌%◌, ◌≤◌, ◌<◌, ◌≡◌, ◌≢◌, refl, ap, sym, subst, ◌∙◌, true, false, List, [], ◌∷◌,
  ◌++◌, Option, none, some, ◌>>=◌, length, get_elem?, length-append, ltb, leb, arith, inl, inr,
  Bool-cases,
}
use hertz_study.App.Chain.{
  Handler, HandlersChain, Context, combine_handlers, increment, abort, is_aborted, call, started_at,
  next_loop, context_next, new_context,
}

-- Positions that go up in the order of the calls, the last below `bound`.
abbrev pub IsInOrder : ℕ → List ℕ → Type 0
IsInOrder bound [] = Unit
IsInOrder bound (i ∷ is) = (i < bound) × IsInOrder i is

IsInOrder-up : (a b : ℕ) (is : List ℕ) → a ≤ b → IsInOrder a is → IsInOrder b is
IsInOrder-up a b [] le h = tt
IsInOrder-up a b (i ∷ is) le (below, h) = (omega arith, h)

-- Nothing past the index has been called, nor past the chain.
record IsSound (size strict : ℕ) (c : Context) : Type 0 where
  in_range : c.index < 128
  before_index : IsInOrder (c.index + strict) c.started
  before_size : IsInOrder size c.started

-- A chain of `n` or fewer positions, run to its end.
abbrev Keeps : ℕ → ℕ → ℕ → (Context → Option Context) → Type 0
Keeps size before after f =
    (c c' : Context) → IsSound size before c → f c ≡ some c' → IsSound size after c'

bind-some :
    {A B : Type 0} (o : Option A) (f : A → Option B) (r : B)
    → (o >>= f) ≡ some r
    → (a : A) × ((o ≡ some a) × (f a ≡ some r))
bind-some none f r h = absurd (ground (arith, h))
bind-some (some a) f r h = (a, (refl, h))

weaken : (size : ℕ) (c : Context) → IsSound size 0 c → IsSound size 1 c
weaken size c s = record {
  in_range = s.in_range;
  before_index = IsInOrder-up (c.index + 0) (c.index + 1) c.started (omega arith) s.before_index;
  before_size = s.before_size;
}

get_or_self : Context → Option Context → Context
get_or_self c none = c
get_or_self c (some d) = d

call-Keeps :
    (size : ℕ) (next : Context → Option Context) (h : Handler)
    → size < 63
    → Keeps size 1 0 next
    → Keeps size 1 1 (call next h)
unfolding call abort get_or_self
call-Keeps size next Handler.finish small n c c' s e =
    subst (λ (o : Option Context). IsSound size 1 (get_or_self c o)) e s
call-Keeps size next (Handler.next_then rest) small n c c' s e =
    let (d, (first, later)) = bind-some (next c) (call next rest) c' e in
    call-Keeps size next rest small n d c' (weaken size d (n c d s first)) later
call-Keeps size next (Handler.abort_then rest) small n c c' s e =
    call-Keeps size next rest small n (abort c) c'
      (record {
        in_range = omega arith;
        before_index = IsInOrder-up size 64 c.started (omega arith) s.before_size;
        before_size = s.before_size;
      })
      e

none_left : (chain : HandlersChain) (c c' : Context) → next_loop zero chain c ≢ some c'
unfolding next_loop
none_left chain c c' e = ground (arith, e)

-- What the handler at the index makes of the context, and the rest of the loop.
abbrev pub run_at : ℕ → HandlersChain → Context → Option Context
run_at fuel chain c =
    let again : Context → Option Context = λ d. next_loop fuel chain (increment d) in
    get_elem? chain c.index >>= λ h. call again h (started_at c) >>= again

pub loop-Stop :
    (fuel : ℕ) (chain : HandlersChain) (c : Context)
    → length chain < 63
    → leb 128 c.index ≡ false
    → ltb c.index (length chain) ≡ false
    → next_loop (suc fuel) chain c ≡ some c
unfolding next_loop
loop-Stop fuel chain c small inside over = ground (arith, small, inside, over)

pub loop-Run :
    (fuel : ℕ) (chain : HandlersChain) (c : Context)
    → length chain < 63
    → leb 128 c.index ≡ false
    → ltb c.index (length chain) ≡ true
    → next_loop (suc fuel) chain c ≡ run_at fuel chain c
unfolding next_loop
loop-Run fuel chain c small inside more = ground (arith, small, inside, more)

loop-inside :
    (fuel : ℕ) (chain : HandlersChain) (c c' : Context)
    → length chain < 63
    → c.index < 256
    → next_loop (suc fuel) chain c ≡ some c'
    → leb 128 c.index ≡ false
unfolding next_loop
loop-inside fuel chain c c' small wrapped e = ground (arith, small, wrapped, e)

-- The loop on a context whose calls are before its index.
abbrev Sound : HandlersChain → ℕ → Type 0
Sound chain fuel =
    (c c' : Context)
    → c.index < 256
    → IsInOrder c.index c.started
    → IsInOrder (length chain) c.started
    → next_loop fuel chain c ≡ some c'
    → IsSound (length chain) 0 c'

again-Keeps :
    (chain : HandlersChain) (fuel : ℕ)
    → Sound chain fuel
    → Keeps (length chain) 1 0 (λ d. next_loop fuel chain (increment d))
unfolding increment
again-Keeps chain fuel sound d c' s e =
    let up : d.index + 1 ≤ (d.index + 1) % 256 = omega (arith, s.in_range) in
    sound (increment d) c' (omega arith)
      (IsInOrder-up (d.index + 1) ((d.index + 1) % 256) d.started up s.before_index) s.before_size e

loop-Sound : (chain : HandlersChain) (fuel : ℕ) → length chain < 63 → Sound chain fuel
unfolding get_or_self
loop-Sound chain zero small c c' wrapped ordered sized e = absurd (none_left chain c c' e)
loop-Sound chain (suc fuel) small c c' wrapped ordered sized e =
    let again : Context → Option Context = λ x. next_loop fuel chain (increment x) in
    let keeps = again-Keeps chain fuel (loop-Sound chain fuel small) in
    let inside : leb 128 c.index ≡ false = loop-inside fuel chain c c' small wrapped e in
    elim (Bool-cases (ltb c.index (length chain))) [
      | inr over ↦
          subst (λ (o : Option Context). IsSound (length chain) 0 (get_or_self c o))
            (sym (loop-Stop fuel chain c small inside over) ∙ e)
            (record {
              in_range = ground arith;
              before_index = IsInOrder-up c.index (c.index + 0) c.started (omega arith) ordered;
              before_size = sized;
            })
      | inl more ↦
          let run = sym (loop-Run fuel chain c small inside more) ∙ e in
          let handle : Handler → Option Context = λ h. call again h (started_at c) >>= again in
          let (h, (_, later)) = bind-some (get_elem? chain c.index) handle c' run in
          let (d, (first, rest)) = bind-some (call again h (started_at c)) again c' later in
          let before : IsSound (length chain) 1 (started_at c) = record {
            in_range = ground arith;
            before_index = (omega arith, ordered);
            before_size = (ground arith, ordered);
          } in
          keeps d c' (call-Keeps (length chain) again h small keeps (started_at c) d before first)
            rest
    ]

pub combine_handlers_lem :
    (group handlers chain : HandlersChain)
    → combine_handlers group handlers ≡ some chain
    → (chain ≡ group ++ handlers) × (length chain < 63)
unfolding combine_handlers
combine_handlers_lem group handlers chain built =
    let whole : chain ≡ group ++ handlers = ground (arith, built) in
    let fits : length group + length handlers < 63 = ground (arith, built) in
    let size = ap (λ (l : HandlersChain). length l) whole ∙ length-append group handlers in
    (whole, omega (arith, size, fits))

-- A chain that `combineHandlers` accepts calls its handlers in order and each at most once, whatever
-- they do with `Next` and `Abort`: if it ends, the positions of the calls go up, and are positions
-- of the chain.
pub context_next-InOrder :
    (group handlers chain : HandlersChain) (fuel : ℕ) (c : Context)
    → combine_handlers group handlers ≡ some chain
    → context_next fuel chain new_context ≡ some c
    → (chain ≡ group ++ handlers) × (IsInOrder (length chain) c.started)
unfolding combine_handlers context_next increment
context_next-InOrder group handlers chain fuel c built ran =
    let (whole, size) = combine_handlers_lem group handlers chain built in
    (
      whole,
      (loop-Sound chain fuel size (increment new_context) c (omega arith) tt tt ran).before_size,
    )

-- Once a context is aborted, `Next` on a chain that `combineHandlers` accepts calls no handler, and
-- the context stays aborted, unless the index is the last int8.
pub context_next-Aborted :
    (group handlers chain : HandlersChain) (fuel : ℕ) (c : Context)
    → combine_handlers group handlers ≡ some chain
    → is_aborted c ≡ true
    → c.index ≢ 127
    → (context_next (suc fuel) chain c ≡ some (increment c))
      × ((is_aborted (increment c) ≡ true) × ((increment c).started ≡ c.started))
unfolding context_next is_aborted increment
context_next-Aborted group handlers chain fuel c built aborted not_last =
    let (_, small) = combine_handlers_lem group handlers chain built in
    let inside : leb 128 ((c.index + 1) % 256) ≡ false = ground (arith, aborted, not_last) in
    let over : ltb ((c.index + 1) % 256) (length chain) ≡ false =
      ground (arith, aborted, not_last, small) in
    (
      loop-Stop fuel chain (increment c) small inside over,
      (ground (arith, aborted, not_last), refl),
    )
