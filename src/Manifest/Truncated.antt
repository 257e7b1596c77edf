-- ===== src/Manifest/Truncated.antt =====
-- A manifest that was cut short, in `Manifest::decode` of crates/holofs-model/src/manifest.rs.
use holofs.Prelude.{ℕ, ◌++◌, ◌≡◌, ◌≢◌, List, [], some, sym, ◌∙◌, subst, some_cancel}
use holofs.Codec.Io.{err, unexpected_eof}
use holofs.Codec.Reads.{Reads}
use holofs.Codec.Extends.{Extends, extends_rules, run_prefix}
use holofs.Manifest.{Manifest}
use holofs.Manifest.Encode.{magic, encode_body, encode}
use holofs.Manifest.Decode.{
  decode_counted, decode_text, decode_hashes, check_magic, decode_body, read_manifest, decode,
}
use holofs.Manifest.RoundTrip.{InRange, encode-eq, Reads-manifest}

Extends-counted : Extends decode_counted
unfolding decode_counted
Extends-counted = search extends_rules

Extends-text : Extends decode_text
unfolding decode_text
Extends-text = search extends_rules

Extends-hashes : Extends decode_hashes
unfolding decode_hashes
Extends-hashes = search extends_rules

Extends-body : Extends decode_body
unfolding decode_body
Extends-body = search (extends_rules, Extends-counted, Extends-text, Extends-hashes) depth 60

Extends-manifest : Extends read_manifest
unfolding read_manifest check_magic
Extends-manifest = search (extends_rules, Extends-body)

-- A proper prefix of an encoded manifest is never decoded to a manifest: it is reported as truncated.
pub manifest_truncated :
    (m : Manifest) (xs ys : List ℕ)
    → InRange m
    → encode m ≡ some (xs ++ ys)
    → ys ≢ []
    → decode xs ≡ err unexpected_eof
unfolding decode
manifest_truncated m xs ys h e more =
    let same : magic ++ encode_body m ≡ xs ++ ys = some_cancel (sym (encode-eq m h) ∙ e) in
    run_prefix Extends-manifest xs ys (subst (Reads read_manifest m) same (Reads-manifest m h)) more
