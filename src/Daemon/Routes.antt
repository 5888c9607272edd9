-- ===== src/Daemon/Routes.antt =====
-- Which handler of the daemon (libsuiw/libsuiwd.cpp) a descriptor gets.
use soft_ui_warp.Prelude.{
  ℕ, zero, suc, ◌+◌, ◌-◌, ◌^◌, ◌<◌, ◌≡◌, refl, sym, ap, ◌∙◌, List, [], ◌∷◌, ◌++◌, arith, ltb, ◌==◌,
  if◌then◌else◌, ℤ, pos, length, drop, length-append, drop-length,
}
use soft_ui_warp.Tcp.{got}
use soft_ui_warp.Wire.{le_bytes}
use soft_ui_warp.Wire.Bytes.{length-le_bytes, from_le-le_bytes}
use soft_ui_warp.Daemon.{
  daemon_msg, Os, Daemon, library, dpdk, event_channel, completion_queue, nobody, route, fd_at,
  build_fds, lib_handle_recv, create_event_channel, create_completion_queue,
}

-- On the lists for which a poll list was built, each position is taken for the list that it was
-- built from: the library, the packet socket, then the event channels in order, then the completion
-- queues in order, and a position behind the end for nobody.
pub route_lem :
    (ecs cqs i : ℕ)
    → ecs + cqs + 2 < 2 ^ 64
    → i < 2 ^ 64
    → route (2 + ecs) ecs cqs i ≡ (
        if i == 0
        then library
        else if i == 1
        then dpdk
        else if ltb i (2 + ecs)
        then event_channel (i - 2)
        else if ltb i (2 + ecs + cqs)
        then completion_queue (i - 2 - ecs)
        else nobody)
unfolding route
route_lem ecs cqs i fits small = ground arith

drop-fd_at : (fds : List ℤ) (i : ℕ) → i < length fds → drop i fds ≡ fd_at fds i ∷ drop (i + 1) fds
unfolding fd_at
drop-fd_at [] i h = absurd (omega arith)
drop-fd_at (fd ∷ fds) zero h = refl
drop-fd_at (fd ∷ fds) (suc i) h =
    drop-fd_at fds i (omega arith)
    ∙ ap (λ k. fd_at fds i ∷ drop k (fd ∷ fds)) (let z : suc (i + 1) ≡ suc i + 1 = omega arith in z)

fd_at-append :
    (xs ys : List ℤ) (i : ℕ)
    → fd_at (xs ++ ys) i ≡ (if ltb i (length xs) then fd_at xs i else fd_at ys (i - length xs))
unfolding fd_at
fd_at-append [] ys i = ground (arith, ap (fd_at ys) (let z : i - 0 ≡ i = omega arith in z))
fd_at-append (x ∷ xs) ys zero = ground arith
fd_at-append (x ∷ xs) ys (suc i) = ground (
  arith,
  fd_at-append xs ys i,
  ap (fd_at ys) (let z : suc i - suc (length xs) ≡ i - length xs = omega arith in z),
)

-- The descriptor that the code looks up for a position is that of the list at the position.
listed :
    (lib_fd dpdk_fd : ℤ) (ec_fds cq_fds : List ℤ) (i : ℕ)
    → length ec_fds + length cq_fds + 2 < 2 ^ 64
    → i < 2 + length ec_fds + length cq_fds
    → elim (route (2 + length ec_fds) (length ec_fds) (length cq_fds) i) as (λ r. ℤ) [
      | library ↦ lib_fd
      | dpdk ↦ dpdk_fd
      | event_channel k ↦ fd_at ec_fds k
      | completion_queue k ↦ fd_at cq_fds k
      | nobody ↦ pos 0
    ]
      ≡ fd_at (lib_fd ∷ dpdk_fd ∷ (ec_fds ++ cq_fds)) i
unfolding fd_at
listed lib_fd dpdk_fd ec_fds cq_fds zero fits h =
    ground (arith, route_lem (length ec_fds) (length cq_fds) 0 (omega arith) (omega arith))
listed lib_fd dpdk_fd ec_fds cq_fds (suc zero) fits h =
    ground (arith, route_lem (length ec_fds) (length cq_fds) 1 (omega arith) (omega arith))
listed lib_fd dpdk_fd ec_fds cq_fds (suc (suc k)) fits h = ground (
  arith,
  route_lem (length ec_fds) (length cq_fds) (suc (suc k)) (omega arith) (omega arith),
  fd_at-append ec_fds cq_fds k,
  ap (fd_at ec_fds) (let z : suc (suc k) - 2 ≡ k = omega arith in z),
  ap (fd_at cq_fds)
      (let z : suc (suc k) - 2 - length ec_fds ≡ k - length ec_fds = omega arith in z),
)

build_fds-drop :
    (lib_fd dpdk_fd : ℤ) (ec_fds cq_fds : List ℤ) (i n : ℕ)
    → length ec_fds + length cq_fds + 2 < 2 ^ 64
    → i + n ≡ 2 + length ec_fds + length cq_fds
    → build_fds lib_fd dpdk_fd ec_fds cq_fds i n ≡ drop i (lib_fd ∷ dpdk_fd ∷ (ec_fds ++ cq_fds))
unfolding build_fds
build_fds-drop lib_fd dpdk_fd ec_fds cq_fds i zero fits e =
    let fds = lib_fd ∷ dpdk_fd ∷ (ec_fds ++ cq_fds) in
    let len : i ≡ length fds = omega (arith, length-append ec_fds cq_fds) in
    sym (ap (λ k. drop k fds) len ∙ drop-length fds)
build_fds-drop lib_fd dpdk_fd ec_fds cq_fds i (suc n) fits e =
    let fds = lib_fd ∷ dpdk_fd ∷ (ec_fds ++ cq_fds) in
    let rest = build_fds-drop lib_fd dpdk_fd ec_fds cq_fds (i + 1) n fits (omega arith) in
    let here = drop-fd_at fds i (omega (arith, length-append ec_fds cq_fds)) in
    ground (arith, rest, here, listed lib_fd dpdk_fd ec_fds cq_fds i fits (omega arith))

-- The poll list that the loop builds is the library's descriptor, that of the packet socket, the
-- event channels and the completion queues, in order.
pub build_fds_lem :
    (lib_fd dpdk_fd : ℤ) (ec_fds cq_fds : List ℤ)
    → length ec_fds + length cq_fds + 2 < 2 ^ 64
    → build_fds lib_fd dpdk_fd ec_fds cq_fds 0 (2 + length ec_fds + length cq_fds)
      ≡ lib_fd ∷ dpdk_fd ∷ (ec_fds ++ cq_fds)
build_fds_lem lib_fd dpdk_fd ec_fds cq_fds fits =
    build_fds-drop lib_fd dpdk_fd ec_fds cq_fds 0 (2 + length ec_fds + length cq_fds) fits
      (omega arith)

module _ (os : Os) where
  -- A whole message from the library that asks for an event channel adds the accepted connection
  -- behind the event channels, and one that asks for a completion queue behind those; a message of
  -- any other type adds none.
  pub lib_handle_recv_lem :
      (d : Daemon os) (fd : ℤ) (type : ℕ) (s : os.State)
      → type < 2 ^ 32
      → os.recv_whole d.sys fd 4 ≡ (got (le_bytes 4 type), s)
      → let (ret, d') = lib_handle_recv os d fd in
        let (new_fd, s') = os.accept s in
        (ret ≡ pos 4)
        × (d'.ec_fds ≡ (if type == 0 then d.ec_fds ++ new_fd ∷ [] else d.ec_fds))
        × (d'.cq_fds ≡ (if type == 1 then d.cq_fds ++ new_fd ∷ [] else d.cq_fds))
        × (d'.sys ≡ (if ltb type 2 then s' else s))
  unfolding lib_handle_recv create_event_channel create_completion_queue daemon_msg
  lib_handle_recv_lem d fd type s fits came =
      let a = length-le_bytes 4 type in
      let b = from_le-le_bytes 4 type fits in
      (
        ground (arith, came, a, b),
        ground (arith, came, a, b),
        ground (arith, came, a, b),
        ground (arith, came, a, b),
      )
