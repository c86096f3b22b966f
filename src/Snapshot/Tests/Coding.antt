-- ===== src/Snapshot/Tests/Coding.antt =====
-- A coding of snapshots as numbers, with its round trip: an instance of `Codec`.
use xray_exporter.Common.{
  ℕ, zero, suc, ◌≡◌, ◌≢◌, refl, Option, none, some, List, [], ◌∷◌, ◌++◌, length,
}
use mathlib.Core.List.{cons≢nil, append_assoc, append-nil}
use xray_exporter.Text.{Text}
use xray_exporter.Snapshot.Types.{Sample, Snapshot}
use xray_exporter.Snapshot.Disk.{Codec}

pub record Coding (A : Type 0) : Type 0 where
  pub write : A → List ℕ
  pub read : List ℕ → Option (A × List ℕ)
  pub read-write : (a : A) (rest : List ℕ) → read (write a ++ rest) ≡ some (a, rest)

pub read_number : List ℕ → Option (ℕ × List ℕ)
read_number [] = none
read_number (n ∷ rest) = some (n, rest)

abbrev pub number : Coding ℕ
unfolding read_number
number = record { write = λ n. n ∷ []; read = read_number; read-write = λ n rest. refl }

module _ {A : Type 0} {B : Type 0} where
  pub both : Option A → (A → Option B) → Option B
  both none f = none
  both (some a) f = f a

module _ {A : Type 0} {B : Type 0} (c : Coding A) (d : Coding B) where
  pub read_pair : List ℕ → Option ((A × B) × List ℕ)
  unfolding both
  read_pair xs = both (c.read xs) λ r. both (d.read r.1) λ q. some ((r.0, q.0), q.1)

  pub read_pair-write :
      (p : A × B) (rest : List ℕ)
      → read_pair ((c.write p.0 ++ d.write p.1) ++ rest) ≡ some (p, rest)
  unfolding read_pair
  read_pair-write (a, b) rest =
      rw (append_assoc (c.write a) (d.write b) rest, c.read-write, both, d.read-write, both) refl

  abbrev pub pair : Coding (A × B)
  pair = record {
    write = λ p. c.write p.0 ++ d.write p.1;
    read = read_pair;
    read-write = read_pair-write;
  }

module _ {A : Type 0} (c : Coding A) where
  pub write_all : List A → List ℕ
  write_all [] = []
  write_all (a ∷ xs) = c.write a ++ write_all xs

  pub read_all : ℕ → List ℕ → Option (List A × List ℕ)
  unfolding both
  read_all zero xs = some ([], xs)
  read_all (suc n) xs = both (c.read xs) λ r. both (read_all n r.1) λ q. some (r.0 ∷ q.0, q.1)

  pub read_all-write :
      (xs : List A) (rest : List ℕ) → read_all (length xs) (write_all xs ++ rest) ≡ some (xs, rest)
  unfolding write_all read_all
  read_all-write [] rest = refl
  read_all-write (a ∷ xs) rest =
      rw
        (
          append_assoc (c.write a) (write_all xs) rest,
          c.read-write,
          both,
          read_all-write xs rest,
          both,
        )
        refl

  pub read_list : List ℕ → Option (List A × List ℕ)
  unfolding read_all
  read_list [] = none
  read_list (n ∷ xs) = read_all n xs

  abbrev pub list : Coding (List A)
  unfolding read_list
  list = record {
    write = λ xs. length xs ∷ write_all xs;
    read = read_list;
    read-write = read_all-write;
  }

module _ {A : Type 0} {B : Type 0} (c : Coding A) (f : B → A) (g : A → B) where
  pub read_as : Option (A × List ℕ) → Option (B × List ℕ)
  read_as none = none
  read_as (some (a, rest)) = some (g a, rest)

  abbrev pub through : ((b : B) → g (f b) ≡ b) → Coding B
  unfolding read_as
  through back = record {
    write = λ b. c.write (f b);
    read = λ xs. read_as (c.read xs);
    read-write = λ b rest. rw (c.read-write, read_as, back b) refl;
  }

abbrev pub text : Coding Text
text = list number

abbrev pub sample : Coding Sample
sample =
    through (pair (pair (pair text text) text) (pair number number))
      (λ (s : Sample).
        (((s.uuid, s.email), s.inbound_tag), (s.uplink_bytes_total, s.downlink_bytes_total)))
      (λ p. record {
        uuid = p.0.0.0;
        email = p.0.0.1;
        inbound_tag = p.0.1;
        uplink_bytes_total = p.1.0;
        downlink_bytes_total = p.1.1;
      })
      (λ s. refl)

abbrev pub snapshot : Coding Snapshot
snapshot =
    through (pair (pair number (pair text text)) (list sample))
      (λ (s : Snapshot). ((s.collected_at, (s.node_id, s.env)), s.samples))
      (λ p. record { collected_at = p.0.0; node_id = p.0.1.0; env = p.0.1.1; samples = p.1 })
      (λ s. refl)

pub whole : Option (List Snapshot × List ℕ) → Option (List Snapshot)
whole none = none
whole (some (items, [])) = some items
whole (some (items, c ∷ rest)) = none

abbrev pub decode : Text → Option (List Snapshot)
unfolding whole
decode payload = whole ((list snapshot).read payload)

abbrev pub encode : List Snapshot → Text
encode = (list snapshot).write

pub decode-encode_lem : (items : List Snapshot) → decode (encode items) ≡ some items
unfolding whole
decode-encode_lem items =
    let law = (list snapshot).read-write items [] in
    let plain = rw (append-nil (encode items)) at law in rw plain refl

pub encode_not_nil : (items : List Snapshot) → encode items ≢ []
unfolding list
encode_not_nil items h = let h' : length items ∷ write_all snapshot items ≡ [] = h in cons≢nil h'

abbrev pub number_codec : Codec
number_codec = record {
  encode = encode;
  decode = decode;
  decode-encode = decode-encode_lem;
  encode-ne-nil = encode_not_nil;
}
