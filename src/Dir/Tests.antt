-- ===== src/Dir/Tests.antt =====
-- Directories on the root directory of the sample image, which lists "." and "..".
use cpts.Base.{false, ℕ, ◌+◌, ◌≤◌, ◌≡◌, ◌++◌, [], ◌∷◌, inr, refl, arith}
use cpts.Bytes.{Buf, IsBytes, zeros, copy_in, trim, u16, u32, put_u8, put_u16, put_u32}
use cpts.Bytes.Fields.{put_u8-IsBytes, put_u16-IsBytes, put_u32-IsBytes}
use cpts.Disk.Laws.{put_block-IsImage}
use cpts.Disk.{put_block, write_at, get_block, get_group, read_at, block_size}
use cpts.Disk.Layout.{bg_inode_table}
use cpts.Text.{Text, text_at, same_text, c_str}
use cpts.Sim.{Sim, Minode, no_minode, update}
use cpts.Sim.Monad.{ok, fault, out_of_fuel}
use cpts.Dir.Endless.{IsStuck, remove_entry-endless}
use cpts.Sample.{sample_image, sample_disk, sample_sim, sample-IsImage}
use cpts.Minodes.{load_inode, inode_place}
use cpts.Minodes.Inode.{i_block}
use cpts.Minodes.Outcome.{with_minode, loaded}
use cpts.Dir.{search_dir, insert_entry, ideal_len, last_block}
use cpts.Dir.Listing.{Chain, Listed, first_named, has_name}
use cpts.Dir.Remove.{remove_entry}
use cpts.Dir.Removed.{Removed, first_buf, remove_entry-Removed}
use cpts.Dir.Undo.{remove_entry-insert_entry}
use cpts.Dir.Lookup.{HasOneBlock, search_dir-insert_entry}
use cpts.Dir.Frame.{offset_of}
use cpts.Dir.Search.{search_dir-first_named}
use cpts.Dir.Insert.{entry}
use cpts.Dir.Entered.{tail_buf, used_bytes, Entered, insert_entry-Entered, insert_entry-overflow}

runs : ℕ
unfolding sample_image sample_disk get_block get_group read_at bg_inode_table trim u16 u32 put_u8
    put_u16 put_u32 inode_place load_inode i_block text_at update
runs = 0

abbrev root_dir : Minode
root_dir = loaded sample_image 3 1 no_minode

abbrev dot : Text
dot = 0x2E ∷ []

abbrev dotdot : Text
dotdot = 0x2E ∷ 0x2E ∷ []

root-Chain :
    Chain
      (get_block sample_image 3 (i_block root_dir.inode 0))
      0
      block_size
      (entry 2 dot ∷ entry 2 dotdot ∷ [])
unfolding runs
root-Chain = (
  record { ino = refl; name = refl; holds_name = omega arith; inside = omega arith },
  (record { ino = refl; name = refl; holds_name = omega arith; inside = omega arith }, refl),
)

root-Listed :
    Listed sample_image root_dir.dev root_dir.inode 12 0 ((entry 2 dot ∷ entry 2 dotdot ∷ []) ∷ [])
unfolding runs
root-Listed = (root-Chain, inr refl)

search_dir-first_named_example : search_dir sample_image root_dir dotdot ≡ 2
unfolding first_named same_text
search_dir-first_named_example =
    search_dir-first_named sample_image root_dir dotdot ((entry 2 dot ∷ entry 2 dotdot ∷ []) ∷ [])
      root-Listed

abbrev root_sim : Sim
root_sim = with_minode sample_sim 0 root_dir

tail_is_root : tail_buf root_sim 0 ≡ get_block sample_image 3 (i_block root_dir.inode 0)
unfolding runs last_block
tail_is_root = refl

tail-Chain : Chain (tail_buf root_sim 0) 0 block_size ((entry 2 dot ∷ []) ++ entry 2 dotdot ∷ [])
tail-Chain = rw tail_is_root root-Chain

abbrev ab : Text
ab = 0x61 ∷ 0x62 ∷ []

room : used_bytes root_sim 0 (entry 2 dot ∷ []) (entry 2 dotdot) + 8 + 2 ≤ block_size
unfolding runs offset_of ideal_len last_block
room = omega arith

insert_entry-Entered_example :
    (s' : Sim) × (insert_entry 0 5 ab root_sim ≡ ok tt s')
    × Entered root_sim 0 (entry 2 dot ∷ entry 2 dotdot ∷ entry 5 ab ∷ []) s'
insert_entry-Entered_example =
    insert_entry-Entered root_sim 0 5 ab (entry 2 dot ∷ []) (entry 2 dotdot) sample-IsImage
      tail-Chain (omega arith) (omega arith) room

root_sim-HasOneBlock : HasOneBlock root_sim 0
unfolding runs
root_sim-HasOneBlock = record { first = λ e. omega (arith, e); second = refl; boot = refl }

search_dir-insert_entry_example :
    (s' : Sim) × (insert_entry 0 5 ab root_sim ≡ ok tt s')
    × ((search_dir s'.image (s'.m_inodes 0) ab ≡ 5)
        × ((t : Text)
            → same_text t ab ≡ false
            → search_dir s'.image (s'.m_inodes 0) t
              ≡ search_dir root_sim.image (root_sim.m_inodes 0) t))
unfolding has_name same_text
search_dir-insert_entry_example =
    search_dir-insert_entry root_sim 0 5 ab (entry 2 dot ∷ []) (entry 2 dotdot) sample-IsImage
      root_sim-HasOneBlock tail-Chain (omega arith) (omega arith) room refl

-- ".." is the last entry of the root directory.
remove_entry-Removed_example :
    (s' : Sim) × (remove_entry 0 dotdot root_sim ≡ ok tt s')
    × Removed root_sim 0 (entry 2 dot ∷ []) s'
unfolding same_text c_str update load_inode
remove_entry-Removed_example =
    remove_entry-Removed root_sim 0 dotdot [] (entry 2 dot) (entry 2 dotdot)
      root_sim-HasOneBlock.first root-Chain (refl, tt) refl

remove_entry-insert_entry_example :
    (s' : Sim) × (s'' : Sim) × (insert_entry 0 5 ab root_sim ≡ ok tt s')
    × (remove_entry 0 ab s' ≡ ok tt s'')
    × Chain (first_buf s'' 0) 0 block_size (entry 2 dot ∷ entry 2 dotdot ∷ [])
unfolding same_text c_str
remove_entry-insert_entry_example =
    remove_entry-insert_entry root_sim 0 5 ab (entry 2 dot ∷ []) (entry 2 dotdot) sample-IsImage
      root_sim-HasOneBlock tail-Chain (omega arith) (omega arith) room (refl, (refl, tt)) refl

-- A block in which "." takes all but the last 12 bytes, and ".." takes those.
abbrev full_dot : Buf
full_dot = put_u8 (put_u8 (put_u16 (put_u32 zeros 0 2) 4 1012) 6 1) 8 0x2E

abbrev full_block : Buf
full_block = put_u16 (put_u8 (put_u16 (put_u32 full_dot 1012 2) 1016 12) 1018 2) 1020 0x2E2E

full_dot-IsBytes : IsBytes full_dot
full_dot-IsBytes =
    put_u8-IsBytes _ _ _
      (put_u8-IsBytes _ _ _ (put_u16-IsBytes _ _ _ (put_u32-IsBytes zeros _ _ λ i. omega arith)))

full_block-IsBytes : IsBytes full_block
full_block-IsBytes =
    put_u16-IsBytes _ _ _
      (put_u8-IsBytes _ _ _ (put_u16-IsBytes _ _ _ (put_u32-IsBytes _ _ _ full_dot-IsBytes)))

abbrev full_sim : Sim
full_sim = record root_sim { image = put_block sample_image 3 7 full_block }

full-Chain : Chain (tail_buf full_sim 0) 0 block_size ((entry 2 dot ∷ []) ++ entry 2 dotdot ∷ [])
unfolding runs last_block put_block write_at copy_in
full-Chain = (
  record { ino = refl; name = refl; holds_name = omega arith; inside = omega arith },
  (record { ino = refl; name = refl; holds_name = omega arith; inside = omega arith }, refl),
)

no_room : used_bytes full_sim 0 (entry 2 dot ∷ []) (entry 2 dotdot) ≡ block_size
unfolding runs last_block put_block write_at copy_in offset_of ideal_len
no_room = refl

insert_entry-overflow_example : insert_entry 0 5 ab full_sim ≡ fault
insert_entry-overflow_example =
    insert_entry-overflow full_sim 0 5 ab (entry 2 dot ∷ []) (entry 2 dotdot)
      (put_block-IsImage sample_image 3 7 full_block sample-IsImage full_block-IsBytes) full-Chain
      (omega arith) (omega (arith, no_room)) (omega (arith, no_room))

-- A block in which "." takes 12 bytes, and the entry behind it has length 0.
abbrev stuck_block : Buf
stuck_block = put_u8 (put_u8 (put_u16 (put_u32 zeros 0 2) 4 12) 6 1) 8 0x2E

abbrev stuck_sim : Sim
stuck_sim = record root_sim { image = put_block sample_image 3 7 stuck_block }

stuck-Chain : Chain (first_buf stuck_sim 0) 0 12 (entry 2 dot ∷ [])
unfolding runs put_block write_at copy_in
stuck-Chain =
    (record { ino = refl; name = refl; holds_name = omega arith; inside = omega arith }, refl)

no_length_at_12 : IsStuck (first_buf stuck_sim 0) 12 ab
unfolding runs put_block write_at copy_in same_text c_str
no_length_at_12 = record { inside = omega arith; no_length = refl; other_name = refl }

live_block : i_block (stuck_sim.m_inodes 0).inode 0 ≡ 7
unfolding runs
live_block = refl

remove_entry-endless_example : remove_entry 0 ab stuck_sim ≡ out_of_fuel
unfolding same_text c_str
remove_entry-endless_example =
    remove_entry-endless stuck_sim 0 12 ab (entry 2 dot ∷ []) (λ e. omega (arith, e, live_block))
      stuck-Chain (refl, tt) no_length_at_12
