-- ===== src/Memory/Paging/Tests.antt =====
-- Page tables made by paging_new_4gb from consecutive pages.
use alpha_os.Prelude.{ℕ, ◌+◌, ◌*◌, ◌≡◌, refl, arith, [], ◌∷◌, ◌++◌, ok}
use alpha_os.Memory.Paging.Store.{Words}
use alpha_os.Memory.Paging.{
  Chunk, paging_new_4gb, paging_free_4gb, paging_map_to, paging_get_physical_address,
}
use alpha_os.Memory.Paging.Table.{IsDirectory}
use alpha_os.Memory.Paging.Map.{paging_map_to_translates}
use alpha_os.Memory.Paging.Identity.{
  IsFresh, allocs, new_4gb-IsDirectory, new_4gb-identity, free-new_4gb,
}

abbrev pages : ℕ → ℕ
pages n = 0x01000000 + n * 4096

pages-IsFresh : IsFresh pages
pages-IsFresh = record {
  is_page = λ n h. omega arith;
  in_space = λ n h. omega arith;
  distinct = λ n m h k e. omega arith;
}

abbrev blank : Words
blank a = 0

abbrev chunk : Chunk
chunk = record { address = pages 1025; directory_entry = pages 0 }

-- The words of the tables, kept shut.
mapped_words : Words
mapped_words = (paging_new_4gb pages blank 5).1

mapped_words-IsDirectory : IsDirectory mapped_words (pages 0) (λ n. pages (n + 1))
unfolding mapped_words paging_new_4gb
mapped_words-IsDirectory = new_4gb-IsDirectory pages blank 5 pages-IsFresh (omega arith)

-- The program is loaded at 0x02000000 and mapped to 0x400000.
paging_map_to_translates_example :
    let (res, words') = paging_map_to mapped_words chunk 0x400000 0x02000000 0x02002000 7 in
    (res ≡ ok 0) × (paging_get_physical_address words' (pages 0) 0x401abc ≡ 0x02001abc)
paging_map_to_translates_example =
    paging_map_to_translates mapped_words chunk (λ n. pages (n + 1)) 0x400000 0x02000000 0x02002000
      7 0x401abc mapped_words-IsDirectory refl refl refl (omega arith) (omega arith) (omega arith)
      (omega arith) (omega arith)

new_4gb-identity_example :
    let (c, words') = paging_new_4gb pages blank 5 in
    paging_get_physical_address words' c.directory_entry 0xB8123 ≡ 0xB8123
new_4gb-identity_example =
    new_4gb-identity pages blank 5 0xB8123 pages-IsFresh (omega arith) (omega arith)

free-new_4gb_example :
    let (c, words') = paging_new_4gb pages blank 5 in
    paging_free_4gb words' c ≡ allocs pages 1024 0 ++ pages 0 ∷ pages 1025 ∷ []
free-new_4gb_example = free-new_4gb pages blank 5 pages-IsFresh (omega arith)
