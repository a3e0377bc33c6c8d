-- ===== src/Tests/Images.antt =====
-- A host with three files, on which the builder of the image is run.
use zeos_soa.Prelude.{
  ℕ, zero, suc, ◌+◌, ◌≡◌, refl, List, [], ◌∷◌, ◌++◌, Option, none, some, arith, length, take, drop,
}
use zeos_soa.Prelude.Int.{ℤ, pos, negsuc}
use zeos_soa.Image.{Host, Builder, ok, build}
use zeos_soa.Image.Disk.{View, IsDisk, splice}
use zeos_soa.Image.Sector.{minix_header, sector}
use zeos_soa.Image.Bytes.{word_at, image}
use zeos_soa.Image.Layout.{build-image}

abbrev filled : (n byte : ℕ) → List ℕ
filled zero byte = []
filled (suc n) byte = byte ∷ filled n byte

-- The name of each file has another length.
abbrev contents : List ℕ → Option (List ℕ)
contents [] = some (minix_header 0 2 0 0 0 8 0 0 ++ sector (filled 508 0xcc) 1 2)
contents (a ∷ []) = some (filled 20 0x90)
contents (a ∷ b ∷ []) = some (filled 7 0x91)
contents (a ∷ b ∷ c ∷ name) = none

-- The open file and what is left of it, and the output with its position.
record State : Type 0 where
  whole : List ℕ
  left : List ℕ
  out : List ℕ
  at : ℕ

abbrev opened : State → Option (List ℕ) → ℤ × State
opened s none = (negsuc 0, s)
opened s (some c) = (pos 3, record s { whole = c; left = c })

abbrev host : Host State
host = record {
  open_read = λ s name. opened s (contents name);
  read = λ s fd n. (pos (length (take n s.left)), take n s.left, record s { left = drop n s.left });
  fstat = λ s fd. (pos 0, length s.whole, s);
  close = λ s fd. s;
  write = λ s bytes.
      (pos (length bytes), record s { out = splice s.out s.at bytes; at = s.at + length bytes });
  lseek = λ s n. (pos n, record s { at = n });
}

abbrev view : View State
view = record {
  contents = contents;
  whole = λ s fd. s.whole;
  unread = λ s fd. s.left;
  output = λ s. s.out;
  offset = λ s. s.at;
}

host-IsDisk : IsDisk host view
host-IsDisk = record {
  open_law = λ s name c is. rw is (refl, refl, refl, record { output = refl; offset = refl });
  read_law = λ s fd n. (refl, refl, refl, record { output = refl; offset = refl });
  fstat_law = λ s fd. (refl, refl, refl, record { output = refl; offset = refl });
  close_law = λ s fd. record { output = refl; offset = refl };
  write_law = λ s bytes. (refl, refl, refl, λ fd. refl);
  lseek_law = λ s n. (refl, refl, refl);
}

abbrev builder : Builder State
builder = record {
  host = record { whole = []; left = []; out = []; at = 0 };
  buf = λ i. 0;
  fd = pos 0;
}

build-image_example :
    (b' : Builder State) × (build host [] (1 ∷ []) (1 ∷ 2 ∷ []) builder ≡ ok b')
    × (b'.host.out ≡ image (filled 508 0xcc) (filled 20 0x90) (filled 7 0x91))
    × (word_at b'.host.out 512 ≡ length (filled 20 0x90))
    × (word_at b'.host.out 516 ≡ length (filled 7 0x91))
    × (length b'.host.out ≡ 512 + length (filled 20 0x90) + length (filled 7 0x91))
build-image_example =
    build-image host view host-IsDisk builder [] (1 ∷ []) (1 ∷ 2 ∷ []) (filled 508 0xcc)
      (filled 20 0x90) (filled 7 0x91) 1 2 0 2 0 0 0 8 0 0 refl refl refl refl (omega arith)
      (omega arith) (omega arith) refl refl
