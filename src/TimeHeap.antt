-- ===== src/TimeHeap.antt =====
-- src/include/lst_timer.h: the heap of timers by which the server finds idle connections. A pointer
-- is a number, 0 is NULL, and the memory says which pointers lead to a live timer. A function returns
-- `none` where the code would go through a pointer that is not live or leave the array.
pub mod Slots
pub mod Up
pub mod Down
pub mod Insert
pub mod Adjust
pub mod Expiry
pub mod Tick
pub mod Clients
pub mod Leaks
use mprpc_advanced_z.Base.{
  ℕ, zero, suc, ◌+◌, ◌-◌, ◌*◌, ◌/◌, List, [], ◌∷◌, ◌++◌, Option, none, some, Bool, true, false, ltb,
  leb, nat_beq, ◌&&◌, not, if◌then◌else◌, length, get_elem?, replicate, set, get_or, take, ◌≡◌, ap,
  ◌∙◌, refl,
}
use mathlib.Core.Option

-- class util_timer; the callback is NULL or the server's cb_func, and user_data is the index of a
-- client_data in the server's table.
pub record Timer : Type 0 where
  pub expire : ℕ
  pub cb_func : Bool
  pub user_data : ℕ

abbrev pub Memory : Type 0
Memory = ℕ → Option Timer

abbrev pub put : ℕ → Option Timer → Memory → Memory
put p t mem q = if nat_beq p q then t else mem q

-- class time_heap: all the slots of the array, of which the first cur_size are in use.
pub record TimeHeap : Type 0 where
  pub array : List ℕ
  pub capacity : ℕ
  pub cur_size : ℕ

-- The heap, the memory, and the field `timer` of each client_data.
pub record State : Type 0 where
  pub heap : TimeHeap
  pub memory : Memory
  pub client_timer : ℕ → ℕ

infixl 5 ◌>>=◌
abbrev pub ◌>>=◌ {ℓ κ} : {A : Type ℓ} {B : Type κ} → Option A → (A → Option B) → Option B
none >>= f = none
some a >>= f = f a

-- What a chain of calls comes to, once its first call has returned.
pub >>=-some {ℓ κ} :
    {A : Type ℓ} {B : Type κ} {m : Option A} {a : A} {r : Option B} (f : A → Option B)
    → m ≡ some a
    → f a ≡ r
    → (m >>= f) ≡ r
>>=-some f e g = ap (λ o. o >>= f) e ∙ g

-- A chain of calls that returns has had each call return.
pub >>=-eq-some {ℓ κ} :
    {A : Type ℓ} {B : Type κ} (m : Option A) (f : A → Option B) {b : B}
    → (m >>= f) ≡ some b
    → (a : A) × (m ≡ some a) × (f a ≡ some b)
>>=-eq-some (some a) f h = (a, refl, h)
>>=-eq-some none f h = cc

-- time_heap(capacity)
unfoldable pub new : ℕ → TimeHeap
new capacity = record { array = replicate capacity 0; capacity = capacity; cur_size = 0 }

-- `array[i]`, and `array[i] = p`
unfoldable pub load : List ℕ → ℕ → Option ℕ
load a i = get_elem? a i

unfoldable pub store : List ℕ → ℕ → ℕ → Option (List ℕ)
store a i p = if ltb i (length a) then some (set a i p) else none

-- `p->expire`
unfoldable pub expire_of : Memory → ℕ → Option ℕ
expire_of mem p = Option.map (λ (t : Timer). t.expire) (mem p)

-- resize(): twice the slots, with the entries in use in front.
unfoldable pub resize : TimeHeap → TimeHeap
resize h = record h {
  array = take h.cur_size h.array ++ replicate (2 * h.capacity - h.cur_size) 0;
  capacity = 2 * h.capacity;
}

-- `if (cur_size >= capacity) resize();`
unfoldable pub grown : TimeHeap → TimeHeap
grown h = if leb h.capacity h.cur_size then resize h else h

abbrev pub parent : ℕ → ℕ
parent c = (c - 1) / 2

-- The loop of add_timer, and the write behind it.
unfoldable pub up_loop : ℕ → Memory → List ℕ → ℕ → ℕ → Option (List ℕ)
up_loop zero mem a hole timer = none
up_loop (suc fuel) mem a hole timer =
    let rise = λ (p : ℕ). store a hole p >>= λ b. up_loop fuel mem b (parent hole) timer in
    let step : Option (List ℕ) = do
      p ← load a (parent hole)
      e ← expire_of mem p
      t ← expire_of mem timer
      if leb e t then store a hole timer else rise p
    in if ltb 0 hole then step else store a hole timer

unfoldable pub add_timer : ℕ → State → Option State
add_timer zero s = some s
add_timer (suc q) s =
    let timer = suc q in
    let h = grown s.heap in
    up_loop (h.cur_size + 1) s.memory h.array h.cur_size timer >>= λ a.
    some (record s { heap = record h { array = a; cur_size = h.cur_size + 1 } })

-- del_timer: the timer stays in the heap, without its callback.
unfoldable pub del_timer : ℕ → State → Option State
del_timer zero s = some s
del_timer (suc q) s = s.memory (suc q) >>= λ t.
    some (record s { memory = put (suc q) (some (record t { cb_func = false })) s.memory })

-- adjust_timer, where `fresh` is the address that `new` returns and `now` is time(NULL).
unfoldable pub adjust_timer : ℕ → ℕ → ℕ → State → Option State
adjust_timer fresh now zero s = some s
adjust_timer fresh now (suc q) s = s.memory (suc q) >>= λ t.
    let emptied = put (suc q) (some (record t { cb_func = false })) s.memory in
    let timer : Timer = record {
      expire = now + 3 * 5;
      cb_func = t.cb_func;
      user_data = t.user_data;
    } in
    add_timer fresh (record s {
      memory = put fresh (some timer) emptied;
      client_timer = λ c. if nat_beq t.user_data c then fresh else s.client_timer c;
    })

-- The smaller child, whose left one exists.
unfoldable pub smaller_child : Memory → List ℕ → ℕ → ℕ → Option ℕ
smaller_child mem a n hole =
    let child = 2 * hole + 1 in
    if ltb child (n - 1)
    then (do
      r ← load a (child + 1)
      l ← load a child
      er ← expire_of mem r
      el ← expire_of mem l
      some (if ltb er el then child + 1 else child))
    else some child

-- The loop of pop_timer over `n` entries, and the write behind it.
unfoldable pub down_loop : ℕ → Memory → List ℕ → ℕ → ℕ → ℕ → Option (List ℕ)
down_loop zero mem a n hole temp = none
down_loop (suc fuel) mem a n hole temp =
    let sink = λ (child p : ℕ). store a hole p >>= λ b. down_loop fuel mem b n child temp in
    let step : Option (List ℕ) = do
      child ← smaller_child mem a n hole
      p ← load a child
      e ← expire_of mem p
      t ← expire_of mem temp
      if ltb e t then sink child p else store a hole temp
    in if ltb (2 * hole + 1) n then step else store a hole temp

-- `delete p`, which does nothing to NULL.
unfoldable pub free : ℕ → Memory → Memory
free zero mem = mem
free (suc q) mem = put (suc q) none mem

unfoldable pub pop_timer : State → Option State
unfolding free
pop_timer s =
    let n = s.heap.cur_size - 1 in
    let popped : Option State = do
      root ← load s.heap.array 0
      let mem = free root s.memory
      a ← store s.heap.array 0 0
      temp ← load a n
      b ← store a 0 temp
      c ← down_loop (n + 1) mem b n 0 temp
      some (record s { heap = record s.heap { array = c; cur_size = n }; memory = mem })
    in if nat_beq s.heap.cur_size 0 then some s else popped

-- top()
unfoldable pub top : State → Option ℕ
top s = if nat_beq s.heap.cur_size 0 then some 0 else load s.heap.array 0

unfoldable pub empty : State → Bool
empty s = nat_beq s.heap.cur_size 0

-- The loop of tick: the state, and the user_data of each callback that it has run.
unfoldable pub tick_loop : ℕ → ℕ → ℕ → State → Option (State × List ℕ)
tick_loop zero cur tmp s = none
tick_loop (suc fuel) cur tmp s =
    let round : Option (State × List ℕ) = do
      t ← s.memory tmp
      let expired : Option (State × List ℕ) = do
        root ← load s.heap.array 0
        r ← s.memory root
        s' ← pop_timer s
        tmp' ← load s'.heap.array 0
        (final, kicked) ← tick_loop fuel cur tmp' s'
        some (final, if r.cb_func then r.user_data ∷ kicked else kicked)
      if ltb cur t.expire then some (s, []) else expired
    in if nat_beq s.heap.cur_size 0
      then some (s, [])
      else if nat_beq tmp 0
      then some (s, [])
      else round

unfoldable pub tick : ℕ → State → Option (State × List ℕ)
tick cur s = load s.heap.array 0 >>= λ tmp. tick_loop (s.heap.cur_size + 1) cur tmp s
