-- ===== src/Tests/Perftest.antt =====
-- Runs of the benchmarks.
use soft_ui_warp.Prelude.{
  ℕ, ◌+◌, ◌-◌, ◌*◌, ◌≡◌, refl, true, some, List, [], ◌∷◌, ◌++◌, arith, ℤ, pos,
}
use soft_ui_warp.Rdmap.{rdmap_init_stream}
use soft_ui_warp.Perftest.{
  PerftestContext, Opt, opt_b, opt_c, opt_h, opt_unknown, returns_0, returns_1, exits,
  default_context, argparse,
}
use soft_ui_warp.Perftest.Options.{described, argparse_lem}
use soft_ui_warp.Perftest.Requests.{SendData, write_bw_init}
use soft_ui_warp.Perftest.Iterations.{Machine, write_bw_iter}
use soft_ui_warp.Perftest.Completed.{send_loop}
use soft_ui_warp.Perftest.Bandwidth.{write_bw_iter_succeeds}
use soft_ui_warp.Tests.Data.{ramp, send_locals, sender}
use soft_ui_warp.Tests.{demo_tcp, demo_open, demo_queue, demo_fifo}

-- A decimal number, as `atoi` reads it.
abbrev digits_from : ℕ → List ℕ → ℕ
digits_from n [] = n
digits_from n (d ∷ ds) = digits_from (n * 10 + (d - 48)) ds

abbrev demo_atoi : List ℕ → ℤ
demo_atoi ds = pos (digits_from 0 ds)

-- `-b 64 -c -b 8`.
abbrev options : List Opt
options = opt_b (54 ∷ 52 ∷ []) ∷ opt_c ∷ opt_b (56 ∷ []) ∷ []

argparse_example :
    (argparse demo_atoi options ≡ returns_0 (described demo_atoi default_context options))
    × (argparse demo_atoi (options ++ opt_h ∷ opt_c ∷ []) ≡ exits)
    × (argparse demo_atoi (options ++ opt_unknown ∷ opt_c ∷ []) ≡ returns_1)
argparse_example = argparse_lem demo_atoi options (opt_c ∷ []) (refl, (refl, (refl, tt)))

abbrev client : PerftestContext
client = record default_context { buf_size = pos 8; max_reqs = pos 2; is_client = true }

abbrev remote : SendData
remote = record { offset = 1000; stag = 7; size = 8 }

abbrev machine : Machine demo_queue demo_tcp
machine = record { stream = sender; send_locals = send_locals }

no_work : machine.stream.send_q ≡ []
unfolding rdmap_init_stream
no_work = refl

nothing_done : (machine.stream.cqs machine.stream.send_cq).q ≡ []
unfolding rdmap_init_stream
nothing_done = refl

write_bw_iter_succeeds_example :
    let (wr, wr_end, filled) = write_bw_init client 10 90 1000 remote ramp in
    (m' : Machine demo_queue demo_tcp) × (write_bw_iter demo_queue
        (send_loop demo_queue)
        2
        client
        10
        wr
        wr_end
        machine
      ≡ some (pos 0, m'))
    × (m'.stream.send_q ≡ [])
    × ((m'.stream.cqs m'.stream.send_cq).q ≡ [])
write_bw_iter_succeeds_example =
    write_bw_iter_succeeds demo_queue demo_fifo demo_open 0 8 10 90 1000 client remote ramp machine
      refl refl (omega arith) (omega arith) no_work nothing_done
