-- ===== src/Badge/UsbHost/Paging.antt =====
-- badge/app/src/usbhost.rs: what a page read over the link can come to.
use dc34_baonix.Base.{ℕ, ◌≡◌, Option, none, some, Outcome, ok, err, List, ◌++◌}
use dc34_baonix.Backing.{Error, medium, Page}
use dc34_baonix.Proto.{read_resp, error}
use dc34_baonix.Host.HostFile.{page_of}
use dc34_baonix.Badge.Link.{LinkInner, Fault, reading, err_code, ty_read_resp, ty_err}
use dc34_baonix.Badge.Link.Logged.{Fed}
use dc34_baonix.Proto.Mux.{Mux, take_matching}

-- What a page read comes to: the bytes of a response for that page, or the code of an error frame for
-- it, taken from what the bytes that arrived leave held; or `Medium` with a fault noted under the read
-- of that page.
pub data PageRead {T : Type 0} (received : T → List ℕ) (page : ℕ) (l m : LinkInner T)
    : Option (Outcome Error Page) → Type 0 where
  arrived :
      (d bytes : List ℕ) (k : Mux)
      → received m.t ≡ received l.t ++ bytes
      → Fed l.mux bytes k
      → (take_matching ty_read_resp k).0 ≡ some (read_resp page d)
      → m.fault ≡ l.fault
      → PageRead received page l m (some (ok (page_of d)))
  refused_read :
      (code : ℕ) (bytes : List ℕ) (k : Mux)
      → received m.t ≡ received l.t ++ bytes
      → Fed l.mux bytes k
      → (take_matching ty_err k).0 ≡ some (error code page)
      → m.fault ≡ l.fault
      → PageRead received page l m (some (err (err_code code)))
  faulted_read :
      (fault : Fault)
      → m.fault ≡ some fault
      → fault.op ≡ some (reading page)
      → PageRead received page l m (some (err medium))
  still_waiting : PageRead received page l m none
