-- ===== src/Disk/Tests.antt =====
-- Runs of the block store modules at concrete inputs.
use cs4411_p.Prelude.{
  ◌≢◌, ◌↔◌, ℕ, zero, suc, ◌+◌, ◌<◌, ℤ, pos, err, ◌≡◌, refl, true, false, ◌&&◌, none, some, List, [],
  ◌∷◌, ◌==◌, ltb, if◌then◌else◌, get_elem?, arith, Bool-cases, inl, inr, ◌⊎◌,
}
use cs4411_p.Store.{Block, BlockStore}
use cs4411_p.Store.Contract.{View, put}
use cs4411_p.Store.Session.{Call, read, write, sync, Reply, got, done, failed, synced, run, ideal}
use cs4411_p.Disk.Ram
use cs4411_p.Disk.Ram.{RamDisk}
use cs4411_p.Disk.Ram.Contents as RamContents
use cs4411_p.Disk.Part
use cs4411_p.Disk.Part.{PartDisk}
use cs4411_p.Disk.Part.Contents as PartContents
use cs4411_p.Disk.Map
use cs4411_p.Disk.Map.{MapDisk}
use cs4411_p.Disk.Map.Contents as MapContents
use cs4411_p.Disk.Raid0
use cs4411_p.Disk.Raid0.{Raid0Disk}
use cs4411_p.Disk.Raid0.Contents as Raid0Contents
use cs4411_p.Disk.Raid1
use cs4411_p.Disk.Raid1.{Raid1Disk}
use cs4411_p.Disk.Raid1.Contents as Raid1Contents
use cs4411_p.Disk.Raid1.Available
use cs4411_p.Disk.Combine
use cs4411_p.Disk.Combine.{CombineDisk}
use cs4411_p.Disk.Combine.Contents as CombineContents
use cs4411_p.Disk.Combine.Locating as CombineLocating
use cs4411_p.Disk.Check
use cs4411_p.Disk.Check.{CheckDisk}
use cs4411_p.Disk.Check.Contents as CheckContents
use cs4411_p.Disk.Check.History.{
  Event, did_setsize, did_read, did_write, did_sync, last_seen, History, read_detects,
}

abbrev ram : RamDisk
ram = record { blocks = (1 ∷ []) ∷ (2 ∷ []) ∷ (3 ∷ []) ∷ (4 ∷ []) ∷ []; nblocks = 4 }

abbrev nine : Block
nine = 9 ∷ []

-- A write, the read of what it wrote, and a read of another block.
abbrev calls : List Call
calls = write 0 1 nine ∷ read 0 1 ∷ sync 0 ∷ read 0 2 ∷ []

abbrev replies : List Reply
replies = done ∷ got nine ∷ synced ∷ got (3 ∷ []) ∷ []

ram-run : run Ram.ops ram (read 1 0 ∷ read 0 4 ∷ calls) ≡ some (failed ∷ failed ∷ replies)
unfolding run Ram.read Ram.write Ram.sync
ram-run = refl

ramdisk_run_example : run Ram.ops ram (read 0 4 ∷ calls) ≡ some (failed ∷ replies)
unfolding ideal
ramdisk_run_example = RamContents.ramdisk_run (read 0 4 ∷ calls) ram (omega arith)

setsize_example :
    (s' : RamDisk) × (Ram.setsize ram 0 2 ≡ some (pos 4, s'))
    × RamContents.IsValid s'
    × (RamContents.view s' ≡ λ i o. if ltb o 2 then RamContents.view ram i o else none)
setsize_example = RamContents.setsize_lem ram 0 2 (omega arith) (omega arith) (omega arith)

setsize_beyond_example :
    (s' : RamDisk) × (Ram.setsize ram 0 8 ≡ some (pos 4, s')) × (Ram.read s' 0 6 nine ≡ none)
setsize_beyond_example = RamContents.read-setsize_beyond ram 0 8 6 nine (omega arith) (omega arith)

abbrev mapped : MapDisk RamDisk
mapped = record { below = ram; ino = 0 }

mapdisk_run_example : run (Map.ops Ram.ops) mapped calls ≡ some replies
unfolding ideal
mapdisk_run_example =
    MapContents.mapdisk_run Ram.ops RamContents.IsValid RamContents.view RamContents.ops-Implements
      calls mapped (omega arith) ((2 ∷ [], refl), ((2 ∷ [], refl), (tt, ((3 ∷ [], refl), tt))))

-- Two partitions, of one and of three blocks.
abbrev parted : PartDisk RamDisk
parted = record { below = ram; ninodes = 2; partsizes = 1 ∷ 3 ∷ [] }

parted-IsValid : PartContents.IsValid Ram.ops RamContents.IsValid RamContents.view parted
parted-IsValid = record { below = omega arith; sized = refl; few = omega arith; fits = omega arith }

partdisk_run_example :
    run (Part.ops Ram.ops) parted (write 1 0 nine ∷ read 1 0 ∷ read 0 0 ∷ read 1 1 ∷ [])
    ≡ some (done ∷ got nine ∷ got (1 ∷ []) ∷ got (3 ∷ []) ∷ [])
unfolding ideal
partdisk_run_example =
    PartContents.partdisk_run Ram.ops RamContents.IsValid RamContents.view
      RamContents.ops-Implements (write 1 0 nine ∷ read 1 0 ∷ read 0 0 ∷ read 1 1 ∷ []) parted
      parted-IsValid ((2 ∷ [], refl), ((2 ∷ [], refl), ((1 ∷ [], refl), ((3 ∷ [], refl), tt))))

parted-IsCovered : PartContents.IsCovered Ram.ops RamContents.IsValid RamContents.view parted
unfolding PartContents.IsCovered
parted-IsCovered zero h = (1 ∷ [], refl)
parted-IsCovered (suc zero) h = (2 ∷ [], refl)
parted-IsCovered (suc (suc zero)) h = (3 ∷ [], refl)
parted-IsCovered (suc (suc (suc zero))) h = (4 ∷ [], refl)
parted-IsCovered (suc (suc (suc (suc n)))) h = absurd (omega arith)

access_beyond_example :
    (Part.read Ram.ops parted 0 1 nine ≡ some (err, nine, parted))
    × (Part.write Ram.ops parted 0 1 nine ≡ some (err, parted))
access_beyond_example =
    PartContents.access_beyond Ram.ops RamContents.IsValid RamContents.view parted 0 1 nine
      parted-IsValid parted-IsCovered refl

abbrev striped : Raid0Disk RamDisk
striped = record { below = ram ∷ ram ∷ [] }

-- Block 5 is block 2 of store 1, and block 4 is block 2 of store 0.
raid0disk_run_example :
    run (Raid0.ops Ram.ops) striped (write 0 5 nine ∷ read 0 5 ∷ read 0 4 ∷ [])
    ≡ some (done ∷ got nine ∷ got (3 ∷ []) ∷ [])
unfolding ideal
raid0disk_run_example =
    Raid0Contents.raid0disk_run Ram.ops RamContents.IsValid RamContents.view
      RamContents.ops-Implements (write 0 5 nine ∷ read 0 5 ∷ read 0 4 ∷ []) striped
      (omega arith, (omega arith, tt)) ((3 ∷ [], refl), ((3 ∷ [], refl), ((3 ∷ [], refl), tt)))

ram-MayFail : Raid1Contents.MayFail Ram.ops RamContents.IsValid RamContents.view
ram-MayFail =
    Raid1Contents.MayFail_of_Implements Ram.ops RamContents.IsValid RamContents.view
      RamContents.ops-Implements RamContents.ops-Rejects

-- A drive that is marked broken, with other contents, and one that works.
abbrev two_drives : Raid1Disk RamDisk
two_drives = record {
  drives =
      record { store = record { blocks = []; nblocks = 0 }; broken = true }
      ∷ record { store = ram; broken = false }
      ∷ [];
}

two_drives-IsMirrored :
    Raid1Contents.IsMirrored Ram.ops RamContents.IsValid RamContents.view
      (RamContents.view ram)
      two_drives.drives
two_drives-IsMirrored = (inl refl, (inr (omega arith, refl), tt))

raid1_read-write_example :
    (r : ℤ) × (s' : Raid1Disk RamDisk) × (Raid1.write Ram.ops two_drives 0 1 nine ≡ some (r, s'))
    × ((r ≡ pos 0)
        ⊎ ((r ≡ err)
            × Raid1Contents.AreBroken Ram.ops RamContents.IsValid RamContents.view s'.drives))
    × ((r' : ℤ) × (b' : Block) × (s'' : Raid1Disk RamDisk) × (Raid1.read Ram.ops s' 0 1 []
          ≡ some (r', b', s''))
        × ((r' ≡ err) ⊎ ((r' ≡ pos 0) × (b' ≡ nine))))
raid1_read-write_example =
    Raid1Contents.read-write Ram.ops RamContents.IsValid RamContents.view ram-MayFail
      (RamContents.view ram) two_drives 0 1 nine [] two_drives-IsMirrored

ram-Serves :
    Raid1.Available.Serves Ram.ops RamContents.IsValid RamContents.view ram-MayFail 0 1
      (record { store = ram; broken = false })
unfolding Ram.read
ram-Serves = record { working = refl; serves = λ buf. (2 ∷ [], ram, refl) }

raid1_available_example :
    (b : Block) × (s' : Raid1Disk RamDisk) × (Raid1.read Ram.ops two_drives 0 1 []
      ≡ some (pos 0, b, s'))
    × (RamContents.view ram 0 1 ≡ some b)
raid1_available_example =
    Raid1.Available.read_available Ram.ops RamContents.IsValid RamContents.view ram-MayFail
      (RamContents.view ram) two_drives 1 0 1 [] (record { store = ram; broken = false })
      two_drives-IsMirrored refl ram-Serves

-- Inode 5 is inode 1 of the second store.
locate_example :
    (d : ℕ) × (k : ℕ) × (size : ℕ) × (Combine.locate (4 ∷ 3 ∷ []) 5 0 ≡ some (d, k))
    × (get_elem? (4 ∷ 3 ∷ []) d ≡ some size)
    × (k < size)
    × (◌≡◌ {A = ℕ} 5 (CombineLocating.first_inode (4 ∷ 3 ∷ []) d + k))
locate_example =
    CombineLocating.locate_lem (4 ∷ 3 ∷ []) 5 (omega arith, (omega arith, tt)) (omega arith)
      (omega arith)

locate_beyond_example : Combine.locate (4 ∷ 3 ∷ []) 7 0 ≡ none
locate_beyond_example =
    CombineLocating.locate_beyond (4 ∷ 3 ∷ []) 7 0 (omega arith, (omega arith, tt)) (omega arith)
      (omega arith)

-- Two stores of two inodes each: inode 3 is inode 1 of the second.
abbrev combined : CombineDisk (PartDisk RamDisk)
combined = record { below = parted ∷ parted ∷ []; belowninodes = 2 ∷ 2 ∷ [] }

combined_from_init : Combine.init (Part.ops Ram.ops) (parted ∷ parted ∷ []) ≡ some combined
unfolding Combine.init Combine.ask_ninodes Part.getninodes
combined_from_init = refl

abbrev IsValidCombined : CombineDisk (PartDisk RamDisk) → Type 0
IsValidCombined =
    CombineContents.IsValid (Part.ops Ram.ops)
      (PartContents.IsValid Ram.ops RamContents.IsValid RamContents.view)
      (PartContents.view Ram.ops RamContents.IsValid RamContents.view)

abbrev view_combined : CombineDisk (PartDisk RamDisk) → View
view_combined =
    CombineContents.view (Part.ops Ram.ops)
      (PartContents.IsValid Ram.ops RamContents.IsValid RamContents.view)
      (PartContents.view Ram.ops RamContents.IsValid RamContents.view)

combined-IsValid : IsValidCombined combined
combined-IsValid = record {
  below = (parted-IsValid, (parted-IsValid, tt));
  small = (omega arith, (omega arith, tt));
}

combinedisk_read_example :
    (s' : CombineDisk (PartDisk RamDisk)) × (Combine.read (Part.ops Ram.ops) combined 3 1 nine
      ≡ some (pos 0, 3 ∷ [], s'))
    × IsValidCombined s'
    × (view_combined s' ≡ view_combined combined)
combinedisk_read_example =
    CombineContents.combinedisk_read (Part.ops Ram.ops)
      (PartContents.IsValid Ram.ops RamContents.IsValid RamContents.view)
      (PartContents.view Ram.ops RamContents.IsValid RamContents.view)
      (PartContents.ops-Implements Ram.ops RamContents.IsValid RamContents.view
        RamContents.ops-Implements)
      combined 3 1 nine (3 ∷ []) combined-IsValid refl

combinedisk_write_example :
    (s' : CombineDisk (PartDisk RamDisk)) × (Combine.write (Part.ops Ram.ops) combined 3 1 nine
      ≡ some (pos 0, s'))
    × IsValidCombined s'
    × (view_combined s' ≡ put (view_combined combined) 3 1 nine)
combinedisk_write_example =
    CombineContents.combinedisk_write (Part.ops Ram.ops)
      (PartContents.IsValid Ram.ops RamContents.IsValid RamContents.view)
      (PartContents.view Ram.ops RamContents.IsValid RamContents.view)
      (PartContents.ops-Implements Ram.ops RamContents.IsValid RamContents.view
        RamContents.ops-Implements)
      combined 3 1 nine (3 ∷ []) combined-IsValid refl

abbrev checked : CheckDisk RamDisk
checked = record { below = ram; bl = record { ino = 0; offset = 1; block = 2 ∷ [] } ∷ [] }

checked-IsValid : CheckContents.IsValid Ram.ops RamContents.IsValid RamContents.view checked
unfolding CheckContents.Agrees Check.find
checked-IsValid = record { below = omega arith; agrees = known }
  where
    known :
        (i o : ℕ)
        → (Check.find checked.bl i o ≡ none)
          ⊎ (Check.find checked.bl i o ≡ RamContents.view ram i o)
    known i o = elim (Bool-cases (0 == i && 1 == o)) [
      | inr other ↦ inl (rw (other, Check.find))
      | inl key ↦
          let ei : i ≡ 0 = ground arith in let eo : o ≡ 1 = ground arith in inr (rw (ei, eo))
    ]

checkdisk_run_example : run (Check.ops Ram.ops) checked calls ≡ some replies
unfolding ideal
checkdisk_run_example =
    CheckContents.checkdisk_run Ram.ops RamContents.IsValid RamContents.view
      RamContents.ops-Implements calls checked checked-IsValid
      ((2 ∷ [], refl), ((2 ∷ [], refl), (tt, ((3 ∷ [], refl), tt))))

-- A memory that reports writes as done and does not carry them out.
abbrev forgetful : BlockStore RamDisk
forgetful = record Ram.ops { write = λ t ino off b. some (pos 0, t) }

abbrev events : List Event
events =
    did_read 0 2 [] (pos 0) (3 ∷ [])
    ∷ did_write 0 1 (5 ∷ []) (pos 0)
    ∷ did_setsize 0 2 (pos 4)
    ∷ did_write 0 1 nine (pos 0)
    ∷ did_sync 0 (pos 0)
    ∷ []

abbrev after_events : CheckDisk RamDisk
after_events = record {
  below = record { blocks = ram.blocks; nblocks = 2 };
  bl = record { ino = 0; offset = 1; block = nine } ∷ [];
}

events-History : History forgetful (Check.init ram) events after_events
unfolding Check.init Check.read Check.write Check.setsize Check.sync Ram.read Ram.setsize Ram.sync
    Check.find Check.check Check.remember Check.update Check.remove_beyond Check.same_block
events-History = (_, refl, (_, refl, (_, refl, (_, refl, (_, refl, refl)))))

-- The memory still holds the old block.
read_detects_example :
    (Check.read forgetful after_events 0 1 [] ≡ none)
    ↔ ((known : Block) × (last_seen events 0 1 ≡ some known) × (known ≢ 2 ∷ []))
unfolding Ram.read
read_detects_example =
    read_detects forgetful ram after_events events 0 1 [] (2 ∷ []) (pos 0) after_events.below
      events-History refl refl

write_lost : Check.read forgetful after_events 0 1 [] ≡ none
unfolding Check.read Ram.read Check.find Check.check Check.same_block
write_lost = refl
