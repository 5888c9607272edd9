-- ===== src/Tests/Control.antt =====
-- The accessors of headers on given fields.
use soft_ui_warp.Prelude.{◌≡◌, arith}
use soft_ui_warp.Wire.{htonl}
use soft_ui_warp.Wire.Control.{
  IwarpTerminate, ddp_version, rdmap_version, rdma_opcode, ddp_set_version, rdmap_set_version,
  rdmap_set_opcode, rdmap_term_layer, rdmap_term_etype, rdmap_term_ecode,
}
use soft_ui_warp.Wire.Control.Layout.{Parts, control}
use soft_ui_warp.Wire.Control.Accessors.{accessors_lem}
use soft_ui_warp.Wire.Control.Terminate.{term_fields, term_word}

-- Tagged and last, version 1 of both protocols, a read response.
abbrev response_parts : Parts
response_parts = record { flags = 48; ddp = 1; rdmap = 1; reserved = 0; opcode = 2 }

accessors_lem_example :
    (ddp_version (control 20 response_parts) ≡ 1)
    × (rdmap_version (control 20 response_parts) ≡ 1)
    × (rdma_opcode (control 20 response_parts) ≡ 2)
    × (ddp_set_version (control 20 response_parts) 7
        ≡ control 20 (record response_parts { ddp = 3 }))
    × (rdmap_set_version (control 20 response_parts) 7
        ≡ control 20 (record response_parts { rdmap = 3 }))
    × (rdmap_set_opcode (control 20 response_parts) 7
        ≡ control 20 (record response_parts { opcode = 7 }))
accessors_lem_example = accessors_lem 20 response_parts (omega arith) 7 (omega arith)

abbrev terminated : IwarpTerminate
terminated = record {
  ctrl = record { mpa_len = 0; ddp_rdmap_ctrl = 0 };
  rsvd = 0;
  ddp_qn = 0;
  ddp_msn = 0;
  ddp_mo = 0;
  term_ctrl = 0;
}

term_fields_example :
    let t = record terminated { term_ctrl = htonl (term_word 1 2 5 0) } in
    (rdmap_term_layer t ≡ 1) × (rdmap_term_etype t ≡ 2) × (rdmap_term_ecode t ≡ 0)
term_fields_example =
    term_fields 1 2 5 0 (omega arith) (omega arith) (omega arith) (omega arith) terminated
