-- ===== src/Storage/Page/RoundTrip.antt =====
-- pkg/storage/page.go: what Serialize writes, Deserialize reads.
use laura_db.Prelude.{
  ℕ, ◌≡◌, ◌<◌, ◌∙◌, refl, sym, List, arith, length, if_pos, if_neg, ℕ_discrete, ◌≢◌,
}
use laura_db.Storage.Bytes.{
  zeros, copy_at, slice, le_bytes, byte_range, length-zeros, length-le_bytes, le_value-le_bytes,
  length-copy_at, slice-copy_at_self, slice-copy_at_before, copy_full,
}
use laura_db.Storage.Page.{Page, ok, err, invalid_page_size, serialize, deserialize}

-- The fields fit the bytes that the layout has for them.
pub record IsStorable (p : Page) : Type 0 where
  pub id_fits : p.id < byte_range 4
  pub type_fits : p.page_type < byte_range 1
  pub flags_fit : p.flags < byte_range 1
  pub lsn_fits : p.lsn < byte_range 8
  pub bytes_fit : length p.bytes ≡ 4080

pub length-serialize : (p : Page) → length (serialize p) ≡ 4096
unfolding serialize
length-serialize p =
    length-copy_at 16 _ _
    ∙ length-copy_at 6 _ _
    ∙ length-copy_at 5 _ _
    ∙ length-copy_at 4 _ _
    ∙ length-copy_at 0 _ _
    ∙ length-zeros 4096

abbrev headed : Page → List ℕ
headed p =
    copy_at 5 (le_bytes 1 p.flags)
      (copy_at 4 (le_bytes 1 p.page_type) (copy_at 0 (le_bytes 4 p.id) (zeros 4096)))

length-headed : (p : Page) → length (headed p) ≡ 4096
length-headed p =
    length-copy_at 5 _ _ ∙ length-copy_at 4 _ _ ∙ length-copy_at 0 _ _ ∙ length-zeros 4096

slice-serialize_id : (p : Page) → slice 0 4 (serialize p) ≡ le_bytes 4 p.id
unfolding serialize
slice-serialize_id p =
    slice-copy_at_before 16 0 4 _ _ (omega arith)
    ∙ slice-copy_at_before 6 0 4 _ _ (omega arith)
    ∙ slice-copy_at_before 5 0 4 _ _ (omega arith)
    ∙ slice-copy_at_before 4 0 4 _ _ (omega arith)
    ∙ slice-copy_at_self 0 4 _ _ (length-le_bytes 4 p.id) (omega (arith, length-zeros 4096))

slice-serialize_type : (p : Page) → slice 4 1 (serialize p) ≡ le_bytes 1 p.page_type
unfolding serialize
slice-serialize_type p =
    slice-copy_at_before 16 4 1 _ _ (omega arith)
    ∙ slice-copy_at_before 6 4 1 _ _ (omega arith)
    ∙ slice-copy_at_before 5 4 1 _ _ (omega arith)
    ∙ slice-copy_at_self 4 1 _ _ (length-le_bytes 1 p.page_type)
        (omega (arith, length-zeros 4096, length-copy_at))

slice-serialize_flags : (p : Page) → slice 5 1 (serialize p) ≡ le_bytes 1 p.flags
unfolding serialize
slice-serialize_flags p =
    slice-copy_at_before 16 5 1 _ _ (omega arith)
    ∙ slice-copy_at_before 6 5 1 _ _ (omega arith)
    ∙ slice-copy_at_self 5 1 _ _ (length-le_bytes 1 p.flags)
        (omega (arith, length-zeros 4096, length-copy_at))

slice-serialize_lsn : (p : Page) → slice 6 8 (serialize p) ≡ le_bytes 8 p.lsn
unfolding serialize
slice-serialize_lsn p =
    slice-copy_at_before 16 6 8 _ _ (omega arith)
    ∙ slice-copy_at_self 6 8 _ _ (length-le_bytes 8 p.lsn) (omega (arith, length-headed p))

slice-serialize_bytes : (p : Page) → length p.bytes ≡ 4080 → slice 16 4080 (serialize p) ≡ p.bytes
unfolding serialize
slice-serialize_bytes p e =
    slice-copy_at_self 16 4080 _ _ e (omega (arith, length-headed p, length-copy_at))

pub deserialize_of_serialize :
    (p q : Page)
    → IsStorable p
    → deserialize q (serialize p) ≡ ok (record p { is_dirty = q.is_dirty; pin_count = q.pin_count })
unfolding deserialize
deserialize_of_serialize p q s =
    rw
      (
        if_pos (ℕ_discrete (length (serialize p)) 4096) (length-serialize p) _ _,
        slice-serialize_id p,
        slice-serialize_type p,
        slice-serialize_flags p,
        slice-serialize_lsn p,
        slice-serialize_bytes p s.bytes_fit,
        le_value-le_bytes 4 p.id s.id_fits,
        le_value-le_bytes 1 p.page_type s.type_fits,
        le_value-le_bytes 1 p.flags s.flags_fit,
        le_value-le_bytes 8 p.lsn s.lsn_fits,
        copy_full p.bytes (zeros 4080) (s.bytes_fit ∙ sym (length-zeros 4080)),
      )
      refl

-- Reading back the 4096 bytes of a page whose fields fit their places gives the page's identifier,
-- type, flags, LSN and data; the page that is read into keeps its dirty flag and its pin count. A
-- block of any other length is refused.
pub deserialize-serialize :
    (p q : Page) (b : List ℕ)
    → IsStorable p
    → length b ≢ 4096
    → (length (serialize p) ≡ 4096)
      × (deserialize q (serialize p)
          ≡ ok (record p { is_dirty = q.is_dirty; pin_count = q.pin_count }))
      × (deserialize q b ≡ err invalid_page_size)
unfolding deserialize
deserialize-serialize p q b s h =
    (length-serialize p, deserialize_of_serialize p q s, if_neg (ℕ_discrete (length b) 4096) h _ _)
