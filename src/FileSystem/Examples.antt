-- ===== src/FileSystem/Examples.antt =====
-- Runs of the model of Assignment2/fs.c, and its theorems at a concrete table of files.
use cs330_assignments.Base.{
  ℕ, ◌+◌, ◌*◌, ◌%◌, ◌^◌, ◌≡◌, inl, inr, refl, ap₂, arith, ◌&&◌, true, Option, none, some, List, [],
  ◌∷◌, if◌then◌else◌, ◌==◌, leb, ltb, ℤ, pos, minus_one, Memory, Bool-cases,
}
use cs330_assignments.FileSystem.State.{Inode, SuperBlock, Strings}
use cs330_assignments.FileSystem.Inodes.{
  is_valid_inode, flat_lookup_inode, lookup_loop, alloc_loop, free_inode_loop, init_file_system,
  flat_create_inode, flat_remove_inode,
}
use cs330_assignments.FileSystem.Inodes.Table.{TableInOrder}
use cs330_assignments.FileSystem.Inodes.Init.{Pages, SetUp, init_file_system-SetUp}
use cs330_assignments.FileSystem.Pages.{file_pages, start_file_system}
use cs330_assignments.FileSystem.Pages.Layout.{Layout}
use cs330_assignments.FileSystem.Pages.Files.{Frames, start_file_system-SetUp}
use cs330_assignments.FileSystem.Inodes.Create.{Creation, flat_create_inode-Creation}
use cs330_assignments.FileSystem.Inodes.Remove.{Removes, flat_remove_inode-Removes}
use cs330_assignments.FileSystem.Bytes.{flat_read, flat_write}
use cs330_assignments.FileSystem.Bytes.File.{
  FileInOrder, Write, Read, flat_write-Write, flat_read-Read,
}
use cs330_assignments.FileSystem.Bytes.RoundTrip.{Returns, flat_read-flat_write}

-- A comparison of strings that meets the assumption on `strcmp`.
pub compare_strings : List ℕ → List ℕ → ℤ
compare_strings [] [] = pos 0
compare_strings [] (y ∷ ys) = minus_one
compare_strings (x ∷ xs) [] = pos 1
compare_strings (x ∷ xs) (y ∷ ys) =
    let rest = compare_strings xs ys in
    if x == y then rest else if ltb x y then minus_one else pos 1

pub compare_strings-same : (s : List ℕ) → compare_strings s s ≡ pos 0
unfolding compare_strings
compare_strings-same [] = refl
compare_strings-same (x ∷ xs) = ground (arith, compare_strings-same xs)

pub compare_strings-zero : (s t : List ℕ) → compare_strings s t ≡ pos 0 → s ≡ t
unfolding compare_strings
compare_strings-zero [] [] h = refl
compare_strings-zero [] (y ∷ ys) h = absurd (ground (arith, h))
compare_strings-zero (x ∷ xs) [] h = absurd (ground (arith, h))
compare_strings-zero (x ∷ xs) (y ∷ ys) h = elim (Bool-cases (x == y)) [
  | inl e ↦ ap₂ ◌∷◌ (ground arith) (compare_strings-zero xs ys (rw e at h))
  | inr f ↦ absurd (ground (arith, h))
]

abbrev pub strings : Strings
strings = record {
  strcmp = compare_strings;
  strcmp_iff = λ s t. (compare_strings-zero s t, λ e. rw e (compare_strings-same t));
}

abbrev pub start : ℕ → ℕ
start i = 2 ^ 20 + i * 4096

start-Pages : Pages start
start-Pages = record { region = λ i l. omega arith; apart = λ i j a b ne. ground arith }

-- The super block before set-up, with a word of garbage in every field.
abbrev pub garbage : SuperBlock
garbage = record {
  num_files = 7;
  inode = λ i. record {
    is_valid = 7;
    filename = 7 ∷ [];
    mode = 7;
    kind = 7;
    inode_no = 7;
    ref_count = 7;
    s_pos = 7;
    e_pos = 7;
    max_pos = 7;
    file_size = 7;
  };
}

abbrev pub name_a : List ℕ
name_a = 97 ∷ []

-- The frames of two regions, and a memory that is set to zero.
abbrev region : ℕ → ℕ
region n = 1000 + n

abbrev clear : ℕ → ℕ → Memory → Memory
clear a count mem b = if leb a b && ltb b (a + count) then 0 else mem b

region-Frames : Frames region
region-Frames = record { below = λ n l. omega arith; different = λ m n k l d e. d (omega arith) }

start_file_system-SetUp_example :
    SetUp strings
      (file_pages region clear (λ a. 7)).0
      (start_file_system region clear garbage (λ a. 7)).0
start_file_system-SetUp_example =
    start_file_system-SetUp region clear strings garbage (λ a. 7) region-Frames

abbrev pub empty_table : SuperBlock
empty_table = init_file_system start garbage

pub empty_table-TableInOrder : TableInOrder empty_table
empty_table-TableInOrder = (init_file_system-SetUp strings start garbage start-Pages).order

-- The table after a creation, or the one before it where the creation has no result.
abbrev table_of : SuperBlock → Option (ℤ × SuperBlock) → SuperBlock
table_of sb none = sb
table_of sb (some r) = r.1

table_of-TableInOrder :
    (sb : SuperBlock) (name : List ℕ) (o : Option (ℤ × SuperBlock))
    → TableInOrder sb
    → Creation strings sb name o
    → TableInOrder (table_of sb o)
table_of-TableInOrder sb name o t (Creation.exists i e) = t
table_of-TableInOrder sb name o t (Creation.full e f) = t
table_of-TableInOrder sb name o t (Creation.too_long e f) = t
table_of-TableInOrder sb name o t (Creation.made i l f s d) = d.order

-- One file, at index 0.
abbrev one_file : SuperBlock
one_file = table_of empty_table (flat_create_inode strings empty_table name_a 3)

one_file-TableInOrder : TableInOrder one_file
one_file-TableInOrder =
    table_of-TableInOrder empty_table name_a _ empty_table-TableInOrder
      (flat_create_inode-Creation strings empty_table name_a 3 empty_table-TableInOrder)

one_file_used : is_valid_inode (one_file.inode 0) ≡ true
unfolding flat_create_inode init_file_system flat_lookup_inode lookup_loop alloc_loop
    free_inode_loop
one_file_used = refl

flat_remove_inode-Removes_example : Removes strings one_file 0 (flat_remove_inode one_file 0)
flat_remove_inode-Removes_example =
    flat_remove_inode-Removes strings one_file 0 one_file-TableInOrder (omega arith) one_file_used

-- A file that holds 100 bytes, and memory that holds the low byte of each address.
abbrev file : Inode
file = record (one_file.inode 0) {
  s_pos = 2 ^ 20;
  e_pos = 2 ^ 20 + 4096;
  max_pos = 2 ^ 20 + 100;
  file_size = 100;
}

file-FileInOrder : FileInOrder file
file-FileInOrder = record { capacity = refl; region = omega arith; fits = omega arith; size = refl }

abbrev memory : Memory
memory = λ a. a % 256

abbrev ones : ℕ → ℕ
ones = λ i. 1

abbrev zeros : ℕ → ℕ
zeros = λ i. 0

flat_write-Write_example : Write file ones 20 90 memory (flat_write file ones 20 90 memory)
flat_write-Write_example =
    flat_write-Write file 20 90 file-FileInOrder (omega arith) (omega arith) ones memory

flat_read-Read_example : Read file zeros 20 90 memory (flat_read file zeros 20 90 memory)
flat_read-Read_example =
    flat_read-Read file 20 90 file-FileInOrder (omega arith) (omega arith) zeros memory

flat_read-flat_write_example : Returns ones 20 (
    flat_read
      (flat_write file ones 20 90 memory).1
      zeros
      20
      90
      (flat_write file ones 20 90 memory).2)
flat_read-flat_write_example =
    flat_read-flat_write file 20 90 ones zeros memory file-FileInOrder (omega arith) (omega arith)
