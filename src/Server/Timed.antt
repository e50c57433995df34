-- ===== src/Server/Timed.antt =====
-- The threads of the pool and the monitor of the timer queue leave the lists of the pool alone.
use mathlib.Core.Path.{subst}
use linux_communication.Common.{
  ℕ, zero, suc, ◌≡◌, refl, arith, List, [], ◌∷◌, Bool, not, ◌||◌, Option, none, some, if_case, ◌==◌,
  ltb, leb, get_elem?,
}
use linux_communication.Packet.{msg_code}
use linux_communication.Memory.{Block}
use linux_communication.Socket.{Socket}
use linux_communication.Logic.{
  Handler, ping_handler, register_handler, login_handler, queue_reply, send_no_body_pkg, ping,
  register, login, call_handler, look_up, ser_thread_process_message, ser_in_send_queue,
  msg_handlers,
}
use linux_communication.Serve.{handle_block, handle_queue, handle_next}
use linux_communication.Timer.{
  insert_entry, add_to_timer_queue, remove_first, remove_first_timer, requeue, after_removal,
  get_over_time_timer, get_earliest_time, is_empty, collect_more, collect_over_time, check_all,
  monitor_turn,
}
use linux_communication.Server.Quiet.{Quiet, stays, then_stays}

ping-Quiet : (now : ℕ) (m : Block) (n : ℕ) (s : Socket) → Quiet s (ping now m n s).0
unfolding ping send_no_body_pkg queue_reply ser_in_send_queue
ping-Quiet now m n s = stays (ground arith)

register-Quiet :
    (junk : ℕ → ℕ) (m : Block) (b : Bool) (n : ℕ) (s : Socket) → Quiet s (register junk m b n s).0
unfolding register queue_reply ser_in_send_queue
register-Quiet junk m b n s = stays (ground arith)

call_handler-Quiet :
    (junk : ℕ → ℕ) (now : ℕ) (h : Handler) (m : Block) (s : Socket)
    → Quiet s (call_handler junk now h m s)
unfolding call_handler login
call_handler-Quiet junk now ping_handler m s = ping-Quiet now m _ s
call_handler-Quiet junk now register_handler m s = register-Quiet junk m _ _ s
call_handler-Quiet junk now login_handler m s = stays refl

look_up-Quiet :
    (junk : ℕ → ℕ) (now : ℕ) (o : Option (Option Handler)) (m : Block) (s : Socket)
    → Quiet s (look_up junk now o m s)
unfolding look_up
look_up-Quiet junk now none m s = stays refl
look_up-Quiet junk now (some none) m s = stays refl
look_up-Quiet junk now (some (some h)) m s = call_handler-Quiet junk now h m s

process_message-Quiet :
    (junk : ℕ → ℕ) (now : ℕ) (m : Block) (s : Socket)
    → Quiet s (ser_thread_process_message junk now m s)
unfolding ser_thread_process_message
process_message-Quiet junk now m s = stays (
    ground (arith, (look_up-Quiet junk now (get_elem? msg_handlers (msg_code m.payload)) m s).same))

handle_block-Quiet :
    (junk : ℕ → ℕ) (now p : ℕ) (b : Option Block) (s : Socket)
    → Quiet s (handle_block junk now p b s)
unfolding handle_block
handle_block-Quiet junk now p none s = stays refl
handle_block-Quiet junk now p (some m) s = stays (process_message-Quiet junk now m s).same

handle_queue-Quiet :
    (junk : ℕ → ℕ) (now : ℕ) (q : List ℕ) (s : Socket) → Quiet s (handle_queue junk now q s)
unfolding handle_queue
handle_queue-Quiet junk now [] s = stays refl
handle_queue-Quiet junk now (p ∷ rest) s =
    stays (handle_block-Quiet junk now p (s.heap.cells p) (record s { msg_recv_queue = rest })).same

pub handle_next-Quiet : (junk : ℕ → ℕ) (now : ℕ) (s : Socket) → Quiet s (handle_next junk now s)
unfolding handle_next
handle_next-Quiet junk now s = handle_queue-Quiet junk now s.msg_recv_queue s

insert_entry-Quiet : (t : ℕ) (m : Block) (s : Socket) → Quiet s (insert_entry t m s)
unfolding insert_entry
insert_entry-Quiet t m s = stays refl

pub add-Quiet : (now c : ℕ) (s : Socket) → Quiet s (add_to_timer_queue now c s)
unfolding add_to_timer_queue insert_entry
add-Quiet now c s = stays refl

remove_first-Quiet : (q : List (ℕ × ℕ)) (s : Socket) → Quiet s (remove_first q s).1
unfolding remove_first
remove_first-Quiet [] s = stays refl
remove_first-Quiet ((t, p) ∷ rest) s = stays refl

remove_timer-Quiet : (s : Socket) → Quiet s (remove_first_timer s).1
unfolding remove_first_timer
remove_timer-Quiet s = stays (ground (arith, (remove_first-Quiet s.timer_queue_map s).same))

requeue-Quiet : (now : ℕ) (b : Option Block) (s : Socket) → Quiet s (requeue now b s)
unfolding requeue
requeue-Quiet now none s = stays refl
requeue-Quiet now (some m) s = insert_entry-Quiet _ _ s

after_removal-Quiet : (now : ℕ) (o : Option ℕ) (s : Socket) → Quiet s (after_removal now (o, s)).1
unfolding after_removal
after_removal-Quiet now none s = stays refl
after_removal-Quiet now (some p) s =
    stays (ground (arith, (requeue-Quiet now (s.heap.cells p) s).same))

over_time-Quiet : (now : ℕ) (s : Socket) → Quiet s (get_over_time_timer now s).1
unfolding get_over_time_timer
over_time-Quiet now s =
    if_case (λ ((o, t) : Option ℕ × Socket). Quiet s t)
      ((s.timer_queue_size == 0) || is_empty s.timer_queue_map) (λ e. stays refl)
      (λ e.
        if_case (λ ((o, t) : Option ℕ × Socket). Quiet s t)
          (leb (get_earliest_time s.timer_queue_map 0) now)
          (λ e.
            then_stays (remove_timer-Quiet s)
              (after_removal-Quiet now (remove_first_timer s).0 (remove_first_timer s).1))
          (λ e. stays refl))

-- The state in the result of the collecting loop, if there is one.
QuietIfAny : Socket → Option (List ℕ × Socket) → Type 0
QuietIfAny s none = Unit {0}
QuietIfAny s (some (ps, t)) = Quiet s t

collect_more-Quiet :
    (o : Option ℕ) (s t : Socket) (rest : Option (List ℕ × Socket))
    → Quiet s t
    → QuietIfAny t rest
    → QuietIfAny s (collect_more o t rest)
unfolding collect_more QuietIfAny
collect_more-Quiet none s t rest q r = q
collect_more-Quiet (some p) s t none q r = tt
collect_more-Quiet (some p) s t (some (ps, u)) q r = then_stays q r

collect-Quiet : (fuel now : ℕ) (s : Socket) → QuietIfAny s (collect_over_time fuel now s)
unfolding collect_over_time QuietIfAny
collect-Quiet zero now s = tt
collect-Quiet (suc fuel) now s =
    collect_more-Quiet (get_over_time_timer now s).0 s (get_over_time_timer now s).1 _
      (over_time-Quiet now s) (collect-Quiet fuel now (get_over_time_timer now s).1)

check_all-Quiet : (ps : List ℕ) (s : Socket) → Quiet s (check_all ps s)
unfolding check_all
check_all-Quiet [] s = stays refl
check_all-Quiet (p ∷ ps) s = then_stays (stays refl) (check_all-Quiet ps _)

QuietTurn : Socket → Option Socket → Type 0
QuietTurn s none = Unit {0}
QuietTurn s (some t) = Quiet s t

checked-Quiet :
    (s : Socket) (o : Option (List ℕ × Socket))
    → QuietIfAny s o
    → QuietTurn s (elim o [ none ↦ none | some (ps, t) ↦ some (check_all ps t) ])
unfolding QuietIfAny QuietTurn
checked-Quiet s none q = tt
checked-Quiet s (some (ps, t)) q = then_stays q (check_all-Quiet ps t)

turn_any-Quiet : (fuel now : ℕ) (s : Socket) → QuietTurn s (monitor_turn fuel now s)
unfolding monitor_turn QuietTurn
turn_any-Quiet fuel now s =
    if_case (QuietTurn s) ((s.timer_queue_size == 0) || not (ltb s.timer_value now))
      (λ e. stays refl) (λ e. checked-Quiet s _ (collect-Quiet fuel now s))

pub monitor-Quiet : (fuel now : ℕ) (s t : Socket) → monitor_turn fuel now s ≡ some t → Quiet s t
unfolding QuietTurn
monitor-Quiet fuel now s t e = subst (QuietTurn s) e (turn_any-Quiet fuel now s)
