-- ===== src/Text/Tests.antt =====
-- A text of crates/holofs-codec/src/text_codec.rs, and the instance of the theorem.
use holofs.Prelude.{ℕ, ◌≡◌, refl, List, [], ◌∷◌, some, arith}
use holofs.Rlnc.Encode.{default_k}
use holofs.Text.{TextSplit, to_string, digits, split_text_into_k_chunks, assemble_text_with_holes}
use holofs.Text.RoundTrip.{all_read, assemble-split_text}

-- "hé!", with a character of two bytes.
abbrev text : List ℕ
text = b'h' ∷ 0xc3 ∷ 0xa9 ∷ b'!' ∷ []

assemble-split_text_example :
    (t : TextSplit) × (split_text_into_k_chunks text ≡ some t)
    × (assemble_text_with_holes (all_read t.padded t.sym_len 0 default_k) t.chunk_lens ≡ (text, 0))
assemble-split_text_example = assemble-split_text text (omega arith)

number : to_string 107 ≡ b'1' ∷ b'0' ∷ b'7' ∷ []
unfolding to_string digits
number = refl
