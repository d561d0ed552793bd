-- ===== src/Host/Tests.antt =====
-- The server over a small file in memory.
use dc34_baonix.Base.{
  ℕ, ◌≡◌, ◌⊎◌, refl, some, [], ◌∷◌, List, arith, false, ◌+◌, ◌-◌, ◌^◌, ◌++◌, Bool, true, none, take,
  drop, ok,
}
use dc34_baonix.Proto
use dc34_baonix.Proto.{
  Frame, read_req, read_resp, write_req, write_ack, error, encode, next_frame, Decoder,
}
use dc34_baonix.Proto.Mux
use dc34_baonix.Proto.Mux.{Mux}
use dc34_baonix.Host.MemFile.{MemFile, mem_file, mem_file-IsFile}
use dc34_baonix.Host.HostFile.{host_file}
use dc34_baonix.Host.HostFile.Flat.{ServesPages, contents, host_file-ServesPages}
use dc34_baonix.Host.Serve.{Server, serve_loop, serve_requests}
use dc34_baonix.Host.Serve.Order.{
  requests, answer_all, with_mux, without_requests, serve_loop-order,
}
use dc34_baonix.Host.Serve.Pages.{IsPage, read_request-answer}
use dc34_baonix.Host.Serve.Reached.{Answers, serve_requests-Answers}
use dc34_baonix.Host.Loading.{boot_layout}
use dc34_baonix.Host.Loading.Layout.{Placement, boot_layout-Placement}
use dc34_baonix.Host.Loading.Fdt.{
  set_u64, prop_range, to_be, prop_loop, on_token, begin_node, property, property_of, be32, cstr,
}
use dc34_baonix.Host.Loading.Fdt.Overwrite.{Overwritten, set_u64-Overwritten}
use dc34_baonix.Host.Sending.{scan}
use dc34_baonix.Host.Sending.Keys.{keys_for, scan-keys_for}

host_file-ServesPages_example : ServesPages (host_file {F = MemFile}) (contents mem_file-IsFile)
host_file-ServesPages_example = host_file-ServesPages mem_file-IsFile

-- Two pages, in which each byte is the low half of its place.
abbrev image : MemFile
image = record { cells = λ i. i; size = 8192; at = 0 }

abbrev server : Server MemFile
server = record {
  img = image;
  mux = record Mux.new { held = write_req 0 [] ∷ read_req 1 ∷ error 1 1 ∷ read_req 2 ∷ [] };
  out = [];
  answered = [];
}

serve_loop-order_example :
    serve_loop 9 8192 server
    ≡ answer_all 8192 (requests server.mux.held) (with_mux (without_requests server.mux) server)
serve_loop-order_example = serve_loop-order 9 8192 server (omega arith)

read_request-answer_example :
    (s : Server MemFile) × (serve_requests 8192 (encode (read_req 1) []) image Mux.new [] ≡ some s)
    × (f : Frame) × (next_frame (record Proto.new { buf = s.out })
        ≡ (some f, record Proto.new { buf = [] }))
    × ((f ≡ error 1 1) ⊎ ((l : List ℕ) × (f ≡ read_resp 1 l) × IsPage mem_file-IsFile image 1 l))
read_request-answer_example =
    read_request-answer mem_file-IsFile 8192 1 image Mux.new Proto.new refl refl (omega arith)

scan-keys_for_checked :
    scan false (keys_for (0x03 ∷ 0x1d ∷ 0x61 ∷ []))
    ≡ record { payload = 0x03 ∷ 0x1d ∷ 0x61 ∷ []; escaped = false; quit = false }
scan-keys_for_checked = scan-keys_for (0x03 ∷ 0x1d ∷ 0x61 ∷ [])

-- A kernel of two megabytes, a device tree and an initrd.
boot_layout-Placement_example :
    Placement 0x8040_0001 2000 (some 5000) (boot_layout 0x8040_0001 2000 (some 5000))
boot_layout-Placement_example = boot_layout-Placement 0x8040_0001 2000 (some 5000) (omega arith)

-- A header whose size reaches the top of the address space: the sums wrap around, and the device
-- tree is put at address 0.
boot_layout_wrapped : boot_layout (2 ^ 64 - 1) 2000 none ≡ some (record { dtb = 0; initrd = none })
unfolding boot_layout
boot_layout_wrapped = refl

serve_requests-Answers_example :
    Answers
      (requests (Mux.push (0xC1 ∷ 0xB0 ∷ []) server.mux).held)
      (record {
        img = image;
        mux = without_requests (Mux.push (0xC1 ∷ 0xB0 ∷ []) server.mux);
        out = [];
        answered = [];
      })
      (serve_requests 8192 (0xC1 ∷ 0xB0 ∷ []) image server.mux [])
serve_requests-Answers_example = serve_requests-Answers 8192 (0xC1 ∷ 0xB0 ∷ []) image server.mux []

-- A node `a` with a property `x` of eight bytes.
abbrev tree : List ℕ
tree =
    (0xd0 ∷ 0x0d ∷ 0xfe ∷ 0xed ∷ 0 ∷ 0 ∷ 0 ∷ 90 ∷ 0 ∷ 0 ∷ 0 ∷ 40 ∷ 0 ∷ 0 ∷ 0 ∷ 88 ∷ 0 ∷ 0 ∷ 0 ∷ 0
      ∷ [])
    ++ ((0 ∷ 0 ∷ 0 ∷ 0 ∷ 0 ∷ 0 ∷ 0 ∷ 0 ∷ 0 ∷ 0 ∷ 0 ∷ 0 ∷ 0 ∷ 0 ∷ 0 ∷ 0 ∷ 0 ∷ 0 ∷ 0 ∷ 48 ∷ [])
        ++ ((0 ∷ 0 ∷ 0 ∷ 1 ∷ 0 ∷ 0 ∷ 0 ∷ 0 ∷ 0 ∷ 0 ∷ 0 ∷ 1 ∷ 0x61 ∷ 0 ∷ 0 ∷ 0 ∷ [])
            ++ ((0 ∷ 0 ∷ 0 ∷ 3 ∷ 0 ∷ 0 ∷ 0 ∷ 8 ∷ 0 ∷ 0 ∷ 0 ∷ 0 ∷ 9 ∷ 9 ∷ 9 ∷ 9 ∷ 9 ∷ 9 ∷ 9 ∷ 9 ∷ [])
                ++ (0 ∷ 0 ∷ 0 ∷ 2 ∷ 0 ∷ 0 ∷ 0 ∷ 2 ∷ 0 ∷ 0 ∷ 0 ∷ 9 ∷ 0x78 ∷ 0 ∷ []))))

abbrev any_text : List ℕ → Bool
any_text _ = true

abbrev changed : List ℕ
changed = take 68 tree ++ (to_be 8 0x8123_4000 ++ drop 76 tree)

tree_set : set_u64 any_text tree (0x2f ∷ 0x61 ∷ []) (0x78 ∷ []) 0x8123_4000 ≡ ok changed
unfolding set_u64 prop_range prop_loop on_token begin_node property property_of be32 cstr
tree_set = refl

set_u64-Overwritten_example :
    (from : ℕ) × (prop_range any_text tree (0x2f ∷ 0x61 ∷ []) (0x78 ∷ []) ≡ some (from, from + 8))
    × Overwritten tree changed from 0x8123_4000
set_u64-Overwritten_example =
    set_u64-Overwritten any_text tree (0x2f ∷ 0x61 ∷ []) (0x78 ∷ []) 0x8123_4000 {after = changed}
      tree_set
