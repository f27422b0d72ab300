-- ===== src/Uri/Redact.antt =====
-- engine/uri.go: what a redacted URI shows of the key.
use aigo.Base.{String, ◌≡◌, refl, sym, ap, ◌∙◌, false, true, Option, none, some, leb, ◌⊎◌, inl, inr}
use aigo.Base.Cut.{
  has_mark, no_mark-append, cut, cut_last, cut_text, cut-absent, cut-append, cut_last-append,
  cut_text-scheme,
}
use aigo.Base.Scan.{◌<>◌, append-nil}
use aigo.Base.Text.{trim_space}
use aigo.Uri.{
  redact_uri, redact_key, redact_single, redact_trimmed, redact_rest, redact_user, byte_length,
  take_bytes, query_of, before,
}

-- The query with its mark, if there is one.
abbrev pub query_end : Option String → String
query_end none = ""
query_end (some q) = "?" <> q

-- `scheme://key@host?query`
abbrev pub full_uri : String → String → String → Option String → String
full_uri scheme key host query = scheme <> "://" <> ((key <> "@" <> host) <> query_end query)

module _ (key host : String) (h : has_mark 63 key ≡ false) (colon : has_mark 58 key ≡ false)
    (k : has_mark 63 host ≡ false) (at : has_mark 64 host ≡ false) where
  redact_user-key :
      redact_user (key <> "@" <> host) (cut_last 64 (key <> "@" <> host))
      ≡ redact_single key <> "@" <> host
  unfolding redact_user redact_key
  redact_user-key = rw (cut_last-append 64 _ key host refl at, cut-absent 58 key colon) refl

  redact_rest-key :
      (query : Option String)
      → redact_rest
          ((key <> "@" <> host) <> query_end query)
          (cut 63 ((key <> "@" <> host) <> query_end query))
        ≡ (redact_single key <> "@" <> host) <> query_end query
  unfolding redact_rest query_of before
  redact_rest-key none =
      rw
        (
          append-nil (key <> "@" <> host),
          cut-absent 63 (key <> "@" <> host) (no_mark-append 63 key ("@" <> host) h k),
        )
        (ap (λ t. t <> "") redact_user-key)
  redact_rest-key (some q) =
      rw (cut-append 63 _ (key <> "@" <> host) q refl (no_mark-append 63 key ("@" <> host) h k))
        (ap (λ t. t <> "?" <> q) redact_user-key)

  -- A URI without spaces around it, whose scheme has no colon, whose key has neither a colon nor a
  -- question mark, and whose host has neither `@` nor a question mark, is shown by `RedactURI` as it is,
  -- but for the key, which is redacted.
  redact_uri-key :
      (scheme : String) (query : Option String)
      → has_mark 58 scheme ≡ false
      → trim_space (full_uri scheme key host query) ≡ full_uri scheme key host query
      → redact_uri (full_uri scheme key host query)
        ≡ scheme <> "://" <> ((redact_single key <> "@" <> host) <> query_end query)
  unfolding redact_uri redact_trimmed
  redact_uri-key scheme query s trimmed =
      ap (λ t. redact_trimmed t (cut_text "://" t)) trimmed
      ∙ ap (redact_trimmed _) (cut_text-scheme scheme ((key <> "@" <> host) <> query_end query) s)
      ∙ ap (λ t. scheme <> "://" <> t) (redact_rest-key query)

redact_single_alike :
    (a b : String)
    → leb (byte_length a) 4 ≡ leb (byte_length b) 4
    → (leb (byte_length a) 4 ≡ true) ⊎ (take_bytes 3 a ≡ take_bytes 3 b)
    → redact_single a ≡ redact_single b
unfolding redact_single
redact_single_alike a b h (inl e) = rw (← h, e) refl
redact_single_alike a b h (inr k) = rw (h, k) refl

-- A key that can stand in a URI: it has neither a colon nor a question mark, and the URI around it has
-- no space to trim.
pub record IsPlain (scheme host : String) (query : Option String) (key : String) : Type 0 where
  pub no_colon : has_mark 58 key ≡ false
  pub no_question : has_mark 63 key ≡ false
  pub trimmed : trim_space (full_uri scheme key host query) ≡ full_uri scheme key host query

-- Two URIs scheme://key@host, with or without a query, that differ in their keys only are shown alike
-- by `RedactURI` if both keys have at most four bytes, or both have more and begin with the same three
-- bytes. The keys have neither a colon nor a question mark, the scheme has no colon, the host has
-- neither a question mark nor an `@`, and the URIs have no space at their ends.
pub redact_uri-hides :
    (scheme host : String) (query : Option String) (a b : String)
    → has_mark 58 scheme ≡ false
    → has_mark 63 host ≡ false
    → has_mark 64 host ≡ false
    → IsPlain scheme host query a
    → IsPlain scheme host query b
    → leb (byte_length a) 4 ≡ leb (byte_length b) 4
    → (leb (byte_length a) 4 ≡ true) ⊎ (take_bytes 3 a ≡ take_bytes 3 b)
    → redact_uri (full_uri scheme a host query) ≡ redact_uri (full_uri scheme b host query)
redact_uri-hides scheme host query a b s h at p q length_eq start =
    redact_uri-key a host p.no_question p.no_colon h at scheme query s p.trimmed
    ∙ ap (λ (t : String). scheme <> "://" <> ((t <> "@" <> host) <> query_end query))
        (redact_single_alike a b length_eq start)
    ∙ sym (redact_uri-key b host q.no_question q.no_colon h at scheme query s q.trimmed)
