-- ===== src/KamiList.antt =====
-- util/list.c and include/list.h: the intrusive doubly linked list that the other parts keep their
-- objects in. Nodes and list headers stand at addresses of one store. An iterator is a value.
pub mod Sequence
pub mod Shape
pub mod Add
pub mod AddAfter
pub mod Remove
pub mod Read
pub mod Ends
mod Tests
use easymesh.Prelude.{
  true, none, ltb, not, Option, zero, ◌+◌, suc, drop, Bool, [], leb, false, ◌==◌, List, ℕ, ◌||◌,
  ◌∷◌, ◌-◌, some, if◌then◌else◌, update,
}
use easymesh.Prelude.Int.{pos, negsuc, ℤ, minus_one}
use easymesh.Prelude.Run.{Ptr, null, Cmd, fault, pure, crash, starve, done, ◌>>=◌, ◌>>◌}

-- struct _KamiListNode.
pub record Node : Type 0 where
  pub next : Ptr
  pub prev : Ptr
  pub list : Ptr
  pub payload : Ptr

-- struct _KamiList.
pub record KamiList : Type 0 where
  pub head : Ptr
  pub tail : Ptr
  pub size : ℕ

-- `live` says which addresses hold a node.
pub record Store : Type 0 where
  pub node : Ptr → Node
  pub header : Ptr → KamiList
  pub live : Ptr → Bool

pub load : Ptr → Cmd Store Node
load p s = if s.live p then done (s.node p) s else fault

pub store : Ptr → Node → Cmd Store (Unit {0})
store p n s = if s.live p then done tt (record s { node = update s.node p n }) else fault

pub load_header : Ptr → Cmd Store KamiList
load_header l s = done (s.header l) s

pub store_header : Ptr → KamiList → Cmd Store (Unit {0})
store_header l h s = done tt (record s { header = update s.header l h })

-- `p->next = q` and the like.
pub set_next : Ptr → Ptr → Cmd Store (Unit {0})
unfolding load store
set_next p q = do n ← load p; store p (record n { next = q })

pub set_prev : Ptr → Ptr → Cmd Store (Unit {0})
unfolding load store
set_prev p q = do n ← load p; store p (record n { prev = q })

pub set_list : Ptr → Ptr → Cmd Store (Unit {0})
unfolding load store
set_list p l = do n ← load p; store p (record n { list = l })

pub set_head : Ptr → Ptr → Cmd Store (Unit {0})
unfolding load_header store_header
set_head l p = do h ← load_header l; store_header l (record h { head = p })

pub set_tail : Ptr → Ptr → Cmd Store (Unit {0})
unfolding load_header store_header
set_tail l p = do h ← load_header l; store_header l (record h { tail = p })

pub set_size : Ptr → ℕ → Cmd Store (Unit {0})
unfolding load_header store_header
set_size l n = do h ← load_header l; store_header l (record h { size = n })

-- `list->size++`, with the new size; past the largest int it overflows.
pub grow : Ptr → ℕ → Cmd Store (Unit {0})
unfolding set_size
grow l n = if ltb n 2147483648 then set_size l n else crash

-- The iterator; `true` is the direction Iter_From_Head.
pub record Iterator : Type 0 where
  pub next : Ptr
  pub from_head : Bool

pub start : KamiList → Bool → Iterator
start h from_head = record { next = (if from_head then h.head else h.tail); from_head = from_head }

-- KamiListGetIter; `allocated` is the answer of malloc, and none is NULL.
pub get_iter : Bool → Ptr → Bool → Cmd Store (Option Iterator)
unfolding load_header start
get_iter allocated l from_head =
    let begin : Cmd Store (Option Iterator) = (do
      h ← load_header l
      pure (some (start h from_head))) in
    if allocated then begin else pure none

-- What the users of KamiListGetIter do with the iterator: they read through it without a test.
abbrev pub with_iter : {A : Type 0} → (Iterator → Cmd Store A) → Option Iterator → Cmd Store A
with_iter k none = crash
with_iter k (some i) = k i

pub iter_init : Ptr → Bool → Cmd Store (Option Iterator)
unfolding load_header start
iter_init l from_head =
    let begin : Cmd Store (Option Iterator) = (do
      h ← load_header l
      pure (some (start h from_head))) in
    if l == null then pure none else begin

-- The node, or NULL at the end, and the iterator moved on.
pub next_node : Iterator → Cmd Store (Ptr × Iterator)
unfolding load
next_node i =
    let step : Cmd Store (Ptr × Iterator) = (do
      n ← load i.next
      pure (i.next, record i { next = (if i.from_head then n.next else n.prev) })) in
    if i.next == null then pure (null, i) else step

pub rewind : Ptr → Iterator → Cmd Store Iterator
unfolding load_header start
rewind l i = do h ← load_header l; pure (start h i.from_head)

-- The loop that every user of an iterator runs: the nodes that it visits, in order.
pub visit : ℕ → Iterator → Cmd Store (List Ptr)
unfolding next_node
visit zero i = starve
visit (suc k) i = do
  (p, j) ← next_node i
  let rest : Cmd Store (List Ptr) = do ps ← visit k j; pure (p ∷ ps)
  if p == null then pure [] else rest

contains_loop : ℕ → Iterator → Ptr → Cmd Store Bool
unfolding next_node
contains_loop zero i item = starve
contains_loop (suc k) i item = do
  (p, j) ← next_node i
  let rest = contains_loop k j item
  if p == null then pure false else if p == item then pure true else rest

pub contains : Bool → Ptr → Ptr → Cmd Store Bool
unfolding load_header get_iter contains_loop
contains allocated l item = do
  h ← load_header l
  let search_loop : Cmd Store Bool =
      get_iter allocated l true >>= with_iter (λ i. contains_loop (h.size + 1) i item)
  if l == null || item == null || h.size == 0 then pure false else search_loop

-- What the additions begin with: NULL arguments and an item that is in the list are refused.
pub refuses : Ptr → Ptr → Cmd Store Bool
unfolding load
refuses l item = do
  let look : Cmd Store Bool = do n ← load item; pure (n.list == l)
  if l == null || item == null then pure true else look

-- The item becomes the only element.
pub add_first : Ptr → Ptr → Cmd Store ℤ
unfolding set_prev set_next set_head set_tail grow set_list
add_first l item = do
  h ← load_header l
  set_next item null
  set_prev item null
  set_tail l item
  set_head l item
  grow l (h.size + 1)
  set_list item l
  pure (pos 0)

pub add_head : Ptr → Ptr → Cmd Store ℤ
unfolding refuses load_header add_first
add_head l item = do
  refused ← refuses l item
  h ← load_header l
  let push : Cmd Store ℤ = do
    set_prev item null
    set_next item h.head
    set_prev h.head item
    set_head l item
    grow l (h.size + 1)
    set_list item l
    pure (pos 0)
  if refused then pure minus_one else if h.size == 0 then add_first l item else push

pub add_tail : Ptr → Ptr → Cmd Store ℤ
unfolding refuses load_header add_first
add_tail l item = do
  refused ← refuses l item
  h ← load_header l
  let push : Cmd Store ℤ = do
    set_next item null
    set_prev item h.tail
    set_next h.tail item
    set_tail l item
    grow l (h.size + 1)
    set_list item l
    pure (pos 0)
  if refused then pure minus_one else if h.size == 0 then add_first l item else push

pub add_after : Ptr → Ptr → Ptr → Cmd Store ℤ
unfolding load load_header
add_after l prev item =
    let link : Cmd Store ℤ = (do
      set_list item l
      set_prev item prev
      p ← load prev
      set_next item p.next
      if p.next == null then pure tt else set_prev p.next item
      set_next prev item
      h ← load_header l
      if prev == h.tail then set_tail l item else pure tt
      grow l (h.size + 1)
      pure (pos 0)) in
    let check : Cmd Store ℤ = (do
      p ← load prev
      let fresh : Cmd Store ℤ = do n ← load item; if n.list == l then pure minus_one else link
      if p.list == l then fresh else pure minus_one) in
    if l == null || prev == null || item == null then pure minus_one else check

pub add_before : Ptr → Ptr → Ptr → Cmd Store ℤ
unfolding load load_header
add_before l next item =
    let link : Cmd Store ℤ = (do
      set_list item l
      set_next item next
      n ← load next
      set_prev item n.prev
      if n.prev == null then pure tt else set_next n.prev item
      set_prev next item
      h ← load_header l
      if next == h.head then set_head l item else pure tt
      grow l (h.size + 1)
      pure (pos 0)) in
    let check : Cmd Store ℤ = (do
      p ← load next
      let fresh : Cmd Store ℤ = do n ← load item; if n.list == l then pure minus_one else link
      if p.list == l then fresh else pure minus_one) in
    if l == null || next == null || item == null then pure minus_one else check

-- `while (tmp && i)`.
pub walk : ℕ → Ptr → Cmd Store Ptr
unfolding load
walk zero p = pure p
walk (suc i) p =
    let step : Cmd Store Ptr = (do n ← load p; walk i n.next) in if p == null then pure p else step

-- Where an `int` index leads: from the end if it is negative.
pub resolve : ℕ → ℤ → Option ℕ
resolve size (pos i) = if ltb i size then some i else none
resolve size (negsuc i) = if ltb i size then some (size - suc i) else none

pub at : Ptr → ℤ → Cmd Store Ptr
unfolding load_header resolve walk
at l i = do
  h ← load_header l
  let found : Cmd Store Ptr = elim (resolve h.size i) [ none ↦ pure null | some k ↦ walk k h.head ]
  if l == null then pure null else found

pub insert_at : Ptr → Ptr → ℤ → Cmd Store ℤ
unfolding refuses load_header add_tail at load
insert_at l item i = do
  refused ← refuses l item
  h ← load_header l
  let tail : Cmd Store ℤ = do add_tail l item; pure (pos 0)
  let link = λ (next : Ptr). (do
    n ← load next
    set_next item next
    set_prev item n.prev
    set_list item l
    if n.prev == null then pure tt else set_next n.prev item
    set_prev next item
    if next == h.head then set_head l item else pure tt
    grow l (h.size + 1)
    pure (pos 0))
  let inside : Cmd Store ℤ = do next ← at l i; if next == null then pure minus_one else link next
  let last : Bool = elim i [ pos k ↦ k == h.size | negsuc _ ↦ false ]
  if refused then pure minus_one else if last then tail else inside

pub head : Ptr → Cmd Store Ptr
unfolding load_header
head l = do h ← load_header l; pure (if l == null then null else h.head)

pub tail : Ptr → Cmd Store Ptr
unfolding load_header
tail l = do h ← load_header l; pure (if l == null then null else h.tail)

pub size : Ptr → Cmd Store ℤ
unfolding load_header
size l = do h ← load_header l; pure (if l == null then minus_one else pos h.size)

-- What every removal of an item but the last one ends with.
pub detach : Ptr → Ptr → Cmd Store ℤ
unfolding set_prev set_next set_size set_list load_header
detach l item = do
  set_next item null
  set_prev item null
  h ← load_header l
  set_size l (h.size - 1)
  set_list item null
  pure (pos 0)

pub del : Ptr → Ptr → Cmd Store ℤ
unfolding load load_header detach
del l item = do
  h ← load_header l
  let single : Cmd Store ℤ = do
    set_tail l null
    set_head l null
    set_size l 0
    set_list item null
    pure (pos 0)
  let first : Cmd Store ℤ = do
    n ← load h.head
    set_head l n.next
    if n.next == null then pure tt else set_prev n.next null
    detach l item
  let last : Cmd Store ℤ = do
    n ← load h.tail
    set_tail l n.prev
    if n.prev == null then pure tt else set_next n.prev null
    detach l item
  let middle : Cmd Store ℤ = do
    n ← load item
    if n.prev == null then pure tt else set_next n.prev n.next
    if n.next == null then pure tt else set_prev n.next n.prev
    detach l item
  let check : Cmd Store ℤ = do
    n ← load item
    if not (n.list == l)
        then pure minus_one
        else if h.size == 1
        then single
        else if item == h.head
        then first
        else if item == h.tail
        then last
        else middle
  if l == null || item == null || h.size == 0 then pure minus_one else check

pub del_by_index : Ptr → ℤ → Cmd Store Ptr
unfolding at del
del_by_index l i = do
  p ← at l i
  let drop : Cmd Store Ptr = do del l p; pure p
  if p == null then pure null else drop

-- The last line clears the `list` field of the new head.
pub del_head : Ptr → Cmd Store ℤ
unfolding load_header load
del_head l = do
  h ← load_header l
  let single : Cmd Store ℤ = do
    set_tail l null
    set_head l null
    set_size l (h.size - 1)
    pure (pos 0)
  let more : Cmd Store ℤ = do
    n ← load h.head
    set_head l n.next
    set_prev n.next null
    set_size l (h.size - 1)
    set_list n.next null
    pure (pos 0)
  let drop : Cmd Store ℤ = do set_list h.head null; if leb h.size 1 then single else more
  if l == null || h.size == 0 then pure minus_one else drop

pub del_tail : Ptr → Cmd Store ℤ
unfolding load_header load
del_tail l = do
  h ← load_header l
  let single : Cmd Store ℤ = do
    set_tail l null
    set_head l null
    set_size l (h.size - 1)
    pure (pos 0)
  let more : Cmd Store ℤ = do
    n ← load h.tail
    set_tail l n.prev
    set_next n.prev null
    set_size l (h.size - 1)
    pure (pos 0)
  let drop : Cmd Store ℤ = do set_list h.tail null; if leb h.size 1 then single else more
  if l == null || h.size == 0 then pure minus_one else drop

pub pop_head : Ptr → Cmd Store Ptr
unfolding head del_head
pop_head l = do p ← head l; del_head l; pure p

pub pop_tail : Ptr → Cmd Store Ptr
unfolding tail del_tail
pop_tail l = do p ← tail l; del_tail l; pure p
