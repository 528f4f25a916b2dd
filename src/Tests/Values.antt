-- ===== src/Tests/Values.antt =====
-- The theorems on JSON values, texts, revisions, codes and keys, at concrete inputs.
use sofa_db.Prelude.{◌^◌, ◌≡◌, refl, true, false, [], ◌∷◌, arith, if◌then◌else◌}
use sofa_db.Prelude.Int.{ℤ, pos, negsuc, ltb_ℤ}
use sofa_db.Text.{Bytes, decimal_ℤ, contains, all_digits, digits_value}
use sofa_db.Failure.{ok}
use sofa_db.Json.Value.{no_items, int, big_int, graft, sublist, item}
use sofa_db.Json.Bignum.{bignum_lt, normalize_int, fits_int64}
use sofa_db.Json.Bignum.Order.{bignum_lt-decimal}
use sofa_db.Json.Bignum.Normal.{normalize_int-decimal}
use sofa_db.Json.Compare.{json_lt}
use sofa_db.Json.Compare.Order.{json_lt-int_big_int}
use sofa_db.Json.Plain.{settled}
use sofa_db.Json.Text.{string_to_json, json_to_string}
use sofa_db.Json.Text.RoundTrip.{string_to_json-json_to_string}
use sofa_db.Revision.{make_revision, parse_revision}
use sofa_db.Revision.Parse.{
  parse_revision-append, parse_revision-make_revision, parse_revision-ok, IsRevisionText,
}
use sofa_db.Database.Paths.{make_path-injective}
use sofa_db.Tests.Codec.{libraries, documented}
use sofa_db.Tests.Data.{db, doc}

abbrev min_less_one : ℤ
min_less_one = negsuc (2 ^ 63)

string_to_json-json_to_string_example :
    string_to_json libraries (
      json_to_string libraries
        (graft (sublist (item (big_int (decimal_ℤ (pos 5))) no_items)))
        false)
    ≡ ok (settled (graft (sublist (item (big_int (decimal_ℤ (pos 5))) no_items))))
string_to_json-json_to_string_example =
    string_to_json-json_to_string libraries documented
      (graft (sublist (item (big_int (decimal_ℤ (pos 5))) no_items))) ((pos 5, refl), tt) tt

bignum_lt-decimal_example :
    bignum_lt (decimal_ℤ (negsuc 11)) (decimal_ℤ (negsuc 8)) ≡ ok (ltb_ℤ (negsuc 11) (negsuc 8))
bignum_lt-decimal_example = bignum_lt-decimal (negsuc 11) (negsuc 8)

normalize_int-decimal_example :
    normalize_int (big_int (decimal_ℤ min_less_one))
    ≡ ok (if fits_int64 min_less_one then int min_less_one else big_int (decimal_ℤ min_less_one))
normalize_int-decimal_example = normalize_int-decimal min_less_one

json_lt-int_big_int_example :
    json_lt (int (pos 0)) (big_int (decimal_ℤ min_less_one))
    ≡ ok (if fits_int64 min_less_one then ltb_ℤ (pos 0) min_less_one else true)
json_lt-int_big_int_example = json_lt-int_big_int (pos 0) min_less_one

parse_revision-make_revision_example :
    parse_revision (make_revision libraries 12 (b'x' ∷ [])).stringed
    ≡ ok (make_revision libraries 12 (b'x' ∷ []))
parse_revision-make_revision_example =
    parse_revision-make_revision libraries documented 12 (b'x' ∷ []) (omega arith) (λ e. cc)

-- "1-a"
parse_revision-ok_example : IsRevisionText (b'1' ∷ (b'-' ∷ (b'a' ∷ []))) (record {
  stringed = b'1' ∷ (b'-' ∷ (b'a' ∷ []));
  num = digits_value 0 (b'1' ∷ []);
  uniq = b'a' ∷ [];
})
parse_revision-ok_example =
    parse_revision-ok b'1' (b'-' ∷ (b'a' ∷ []))
      (record {
        stringed = b'1' ∷ (b'-' ∷ (b'a' ∷ []));
        num = digits_value 0 (b'1' ∷ []);
        uniq = b'a' ∷ [];
      })
      (parse_revision-append (b'1' ∷ []) (b'a' ∷ []) (unfold all_digits in refl) (λ e. cc) (λ e. cc)
        (unfold digits_value in omega arith))

abbrev first_number : Bytes
first_number = b'1' ∷ []

make_path-injective_example : (db.name ≡ db.name) × (doc ≡ doc) × (first_number ≡ first_number)
make_path-injective_example =
    make_path-injective db db doc doc first_number first_number (unfold contains in refl)
      (unfold contains in refl) (unfold contains in refl) (unfold contains in refl) refl
