-- ===== src/Cache/Tests.antt =====
-- The page cache on a store of two pages, with room for one of them.
use dc34_baonix.Base.{
  update, false, true, ℕ, ◌+◌, ◌%◌, ◌≡◌, refl, inl, some, List, [], ◌∷◌, get_elem?, ok, arith,
}
use dc34_baonix.Backing.{Page, FakeBacking, fake_backing, ram_base}
use dc34_baonix.Backing.Fake.{contents, fake_backing-IsFlatArray}
use dc34_baonix.Cache.{
  PageCache, Frame, no_stats, new, slice, splice, resident_slot, set_resident, clear_resident,
  frame_at, set_frame, select_victim, clock, settle, unpinned, check_range, select_clean_victim,
  clean_scan,
}
use dc34_baonix.Cache.Valid.{
  IsValid, mem, IsUnpinnedAt, IsCleanAt, select_victim_unpinned, select_clean_victim_clean,
}
use dc34_baonix.Cache.Resident.{
  resident, place, admit, touch, evict, offer, replace, after_writeback, take_clean,
}
use dc34_baonix.Cache.Bytes.{read_bytes, write_bytes, read_loop, write_loop}
use dc34_baonix.Base.{inr, to_le, from_le}
use dc34_baonix.Cache.Bytes.{read_le, write_le}
use dc34_baonix.Cache.Bytes.Words.{read_le-from_le, write_le_inside, write_le_outside}
use dc34_baonix.Cache.Bytes.Slices.{byte_at}
use dc34_baonix.Cache.Memory.{
  new-IsValid, resident-mem, resident-slot, read_bytes-byte_at, read_bytes-mem, write_bytes_inside,
  write_bytes_outside,
}

abbrev ramp : Page
ramp i = i % 256

abbrev sevens : Page
sevens i = 7

abbrev store : FakeBacking
store = record { pages = ramp ∷ sevens ∷ [] }

abbrev cache : PageCache FakeBacking
cache = record {
  backing = store;
  frames = [];
  slot_of = λ _. 0;
  hand = 0;
  capacity = 1;
  stats = no_stats;
}

made : new store 1 ≡ ok cache
unfolding new
made = refl

cache-IsValid : IsValid contents cache
cache-IsValid = (new-IsValid contents fake_backing-IsFlatArray store 1 0 cache made).0

new-IsValid_checked : IsValid contents cache × (mem contents cache 1 ≡ contents store 1)
new-IsValid_checked = new-IsValid contents fake_backing-IsFlatArray store 1 1 cache made

resident-mem_example :
    IsValid contents (resident 1 cache).1
    × (mem contents (resident 1 cache).1 0 ≡ mem contents cache 0)
resident-mem_example = resident-mem contents fake_backing-IsFlatArray cache 1 0 cache-IsValid

brought_in : (resident 1 cache).0 ≡ ok 0
unfolding resident resident_slot set_resident place admit
brought_in = refl

resident-slot_example :
    (f : Frame) × (get_elem? (resident 1 cache).1.frames 0 ≡ some f) × (f.page ≡ 1)
resident-slot_example =
    resident-slot contents fake_backing-IsFlatArray cache 1 0 cache-IsValid brought_in

-- The range crosses from the one page into the other.
read_across : (read_bytes (ram_base + 4094) 4 cache).0 ≡ ok (254 ∷ 255 ∷ 7 ∷ 7 ∷ [])
unfolding read_bytes read_loop resident resident_slot set_resident clear_resident place admit touch
    frame_at set_frame evict offer replace after_writeback select_victim clock settle unpinned
    check_range slice splice
read_across = refl

read_bytes-byte_at_example :
    254 ∷ 255 ∷ 7 ∷ 7 ∷ [] ≡ slice (byte_at contents cache) (ram_base + 4094) 4
read_bytes-byte_at_example =
    read_bytes-byte_at contents fake_backing-IsFlatArray (ram_base + 4094) 4 cache
      (254 ∷ 255 ∷ 7 ∷ 7 ∷ []) cache-IsValid read_across

read_bytes-mem_checked :
    IsValid contents (read_bytes (ram_base + 4094) 4 cache).1
    × (mem contents (read_bytes (ram_base + 4094) 4 cache).1 0 ≡ mem contents cache 0)
read_bytes-mem_checked =
    read_bytes-mem contents fake_backing-IsFlatArray (ram_base + 4094) 4 0 cache cache-IsValid

abbrev three : List ℕ
three = 1 ∷ 2 ∷ 3 ∷ []

write_across : (write_bytes (ram_base + 4095) three cache).0 ≡ ok tt
unfolding write_bytes write_loop select_clean_victim clean_scan take_clean resident resident_slot
    set_resident clear_resident place admit touch frame_at set_frame evict offer replace
    after_writeback select_victim clock settle unpinned check_range slice splice
write_across = refl

write_bytes_inside_example :
    get_elem? three 1
    ≡ some (byte_at contents (write_bytes (ram_base + 4095) three cache).1 (ram_base + 4095 + 1))
write_bytes_inside_example =
    write_bytes_inside contents fake_backing-IsFlatArray (ram_base + 4095) 1 three cache
      cache-IsValid write_across (omega arith)

write_bytes_outside_example :
    IsValid contents (write_bytes (ram_base + 4095) three cache).1
    × (byte_at contents (write_bytes (ram_base + 4095) three cache).1 (ram_base + 4094)
        ≡ byte_at contents cache (ram_base + 4094))
write_bytes_outside_example =
    write_bytes_outside contents fake_backing-IsFlatArray (ram_base + 4095) (ram_base + 4094) three
      cache cache-IsValid (omega arith, omega arith) (inl (omega arith))

-- One frame, clean and not pinned.
abbrev busy : PageCache FakeBacking
busy = record cache {
  frames =
      record { page = 1; dirty = false; referenced = true; pinned = false; bytes = sevens } ∷ [];
  slot_of = update (λ _. 0) 1 1;
}

victim_found : select_victim busy ≡ (ok 0, (select_victim busy).1)
unfolding select_victim clock settle unpinned frame_at set_frame
victim_found = refl

select_victim_unpinned_example : IsUnpinnedAt contents (select_victim busy).1 0
select_victim_unpinned_example = select_victim_unpinned contents busy victim_found

clean_found : select_clean_victim busy ≡ (ok (some 0), (select_clean_victim busy).1)
unfolding select_clean_victim clean_scan frame_at set_frame
clean_found = refl

select_clean_victim_clean_checked :
    IsCleanAt contents busy 0 × ((select_clean_victim busy).1.frames ≡ busy.frames)
select_clean_victim_clean_checked = select_clean_victim_clean contents busy clean_found

-- The word lies in both pages.
word_across : (read_le 4 (ram_base + 4094) cache).0 ≡ ok 0x0707_FFFE
unfolding read_le from_le read_bytes read_loop resident resident_slot set_resident clear_resident
    place admit touch frame_at set_frame evict offer replace after_writeback select_victim clock
    settle unpinned check_range slice splice
word_across = refl

read_le-from_le_example : 0x0707_FFFE ≡ from_le (slice (byte_at contents cache) (ram_base + 4094) 4)
read_le-from_le_example =
    read_le-from_le contents fake_backing-IsFlatArray 4 (ram_base + 4094) 0x0707_FFFE cache
      (omega arith) cache-IsValid word_across

word_stored : (write_le 4 (ram_base + 8) 0x0102_0304 cache).0 ≡ ok tt
unfolding write_le to_le resident resident_slot set_resident place admit frame_at set_frame
    check_range splice
word_stored = refl

write_le_inside_example :
    get_elem? (to_le 8 0x0102_0304) 1
    ≡ some (byte_at contents (write_le 4 (ram_base + 8) 0x0102_0304 cache).1 (ram_base + 8 + 1))
write_le_inside_example =
    write_le_inside contents fake_backing-IsFlatArray 4 (ram_base + 8) 0x0102_0304 1 cache
      (omega arith) (omega arith) cache-IsValid word_stored (omega arith)

write_le_outside_example :
    IsValid contents (write_le 4 (ram_base + 8) 0x0102_0304 cache).1
    × (byte_at contents (write_le 4 (ram_base + 8) 0x0102_0304 cache).1 (ram_base + 12)
        ≡ byte_at contents cache (ram_base + 12))
write_le_outside_example =
    write_le_outside contents fake_backing-IsFlatArray 4 (ram_base + 8) 0x0102_0304 (ram_base + 12)
      cache (omega arith) (omega arith) cache-IsValid (omega arith, omega arith) (inr (omega arith))
