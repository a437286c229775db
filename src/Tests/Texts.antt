-- ===== src/Tests/Texts.antt =====
-- Runs of utils/src/utils/base64.cpp and messages/src/communication/discovercontactagent.cpp.
use secure_dialogues.Common.{◌≡◌, refl, ◌∷◌, ◌++◌, codes, drop}
use secure_dialogues.Common.Int.{pos}
use secure_dialogues.Common.Result.{ok}
use secure_dialogues.Base64.{base64_encode, char_at, index_0, index_1, index_2, index_3}
use secure_dialogues.Discovery.{content_delimiter, get_name_and_public_key, discover_message}
use secure_dialogues.Discovery.Bodies.{dash_name_cut}

base64_encode_text : base64_encode (codes "any car") ≡ codes "YW55IGNhcg=="
unfolding base64_encode char_at index_0 index_1 index_2 index_3
base64_encode_text = refl

dash_name_cut_example :
    get_name_and_public_key
      (discover_message
        (codes "Ann" ++ b'-' ∷ codes "Lee")
        (codes "KEY")
        (codes "id")
        5
        (codes "to")
        (pos 7)).content
    ≡ ok (codes "Ann", drop 31 (codes "Lee" ++ (content_delimiter ++ codes "KEY")))
dash_name_cut_example =
    dash_name_cut (codes "Ann") (codes "Lee") (codes "KEY") (codes "id") (codes "to") 5 (pos 7)
      (refl, (refl, (refl, tt)))
