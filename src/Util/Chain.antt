-- ===== src/Util/Chain.antt =====
-- kernel/util/list.h: a doubly linked list of payloads. A node is its address, 0 is NULL. `malloc` is a
-- parameter by its answer, the address of the new node or NULL; what `free` does with a node is not
-- seen here: its address is handed on.
pub mod Segments
pub mod Refines
pub mod Unlink
mod Tests
use avr_kernel.Base.{
  ℕ, zero, suc, ◌+◌, Bool, true, false, Option, none, some, if◌then◌else◌, ◌==◌, ◌!=◌, ◌||◌, upd,
  ◌>>=◌,
}

-- `struct list_node`
pub record ListNode : Type 0 where
  pub payload : ℕ
  pub next : ℕ
  pub prev : ℕ

-- The nodes in memory, and the head and the tail of the list.
pub record Chain : Type 0 where
  pub nodes : ℕ → ListNode
  pub head : ℕ
  pub tail : ℕ

abbrev pub link_next : (node next : ℕ) → (ℕ → ListNode) → ℕ → ListNode
link_next node next nodes = upd nodes node (record (nodes node) { next = next })

abbrev pub link_prev : (node prev : ℕ) → (ℕ → ListNode) → ℕ → ListNode
link_prev node prev nodes = upd nodes node (record (nodes node) { prev = prev })

pub list_append : (new_node item : ℕ) → Chain → Bool × Chain
list_append new_node item s =
    let placed = upd s.nodes new_node (record { payload = item; next = 0; prev = s.tail }) in
    if new_node == 0
    then (false, s)
    else if s.head == 0
    then (true, record { nodes = placed; head = new_node; tail = new_node })
    else (true, record { nodes = link_next s.tail new_node placed; head = s.head; tail = new_node })

-- The forward link to the node, or the head.
pub unlink_next : (node : ℕ) → Chain → Chain
unlink_next node s =
    let n = s.nodes node in
    if n.prev != 0
    then record s { nodes = link_next n.prev n.next s.nodes }
    else record s { head = n.next }

-- The backward link to the node, or the tail.
pub unlink_prev : (node : ℕ) → Chain → Chain
unlink_prev node s =
    let n = s.nodes node in
    if n.next != 0
    then record s { nodes = link_prev n.next n.prev s.nodes }
    else record s { tail = n.prev }

pub list_unlink : (node : ℕ) → Chain → Chain
list_unlink node s = unlink_prev node (unlink_next node s)

-- The loop of `list_remove`.
pub find_data : (rounds current target : ℕ) → (ℕ → ListNode) → Option ℕ
find_data zero current target nodes = none
find_data (suc rounds) current target nodes =
    let rest = find_data rounds (nodes current).next target nodes in
    if current == 0 || (nodes current).payload == target then some current else rest

-- The freed node (0 when the payload is not in the list), and the list.
pub list_remove : (rounds target_data : ℕ) → Chain → Option (ℕ × Chain)
list_remove rounds target_data s = do
  current ← find_data rounds s.head target_data s.nodes
  some (if current == 0 then (0, s) else (current, list_unlink current s))
