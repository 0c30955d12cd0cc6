-- ===== src/Ui/Languages.antt =====
-- internal/constants/languages.go: the languages that the models of whisper know.
use dabri.Prelude.{List, [], ◌∷◌, Option, none, some, if◌then◌else◌}
use dabri.Text.{Text, codes, text_eq}

pub record Language : Type 0 where
  pub code : Text
  pub name : Text

abbrev language : Text → Text → Language
language code name = record { code = code; name = name }

unfoldable pub whisper_languages : List Language
whisper_languages =
    language (codes "af") (codes "Afrikaans")
    ∷ language (codes "sq") (codes "Albanian")
    ∷ language (codes "am") (codes "Amharic")
    ∷ language (codes "ar") (codes "Arabic")
    ∷ language (codes "hy") (codes "Armenian")
    ∷ language (codes "as") (codes "Assamese")
    ∷ language (codes "az") (codes "Azerbaijani")
    ∷ language (codes "ba") (codes "Bashkir")
    ∷ language (codes "eu") (codes "Basque")
    ∷ language (codes "be") (codes "Belarusian")
    ∷ language (codes "bn") (codes "Bengali")
    ∷ language (codes "bs") (codes "Bosnian")
    ∷ language (codes "br") (codes "Breton")
    ∷ language (codes "bg") (codes "Bulgarian")
    ∷ language (codes "my") (codes "Burmese")
    ∷ language (codes "ca") (codes "Catalan")
    ∷ language (codes "zh") (codes "Chinese")
    ∷ language (codes "hr") (codes "Croatian")
    ∷ language (codes "cs") (codes "Czech")
    ∷ language (codes "da") (codes "Danish")
    ∷ language (codes "nl") (codes "Dutch")
    ∷ language (codes "en") (codes "English")
    ∷ language (codes "et") (codes "Estonian")
    ∷ language (codes "fo") (codes "Faroese")
    ∷ language (codes "fi") (codes "Finnish")
    ∷ language (codes "fr") (codes "French")
    ∷ language (codes "gl") (codes "Galician")
    ∷ language (codes "ka") (codes "Georgian")
    ∷ language (codes "de") (codes "German")
    ∷ language (codes "el") (codes "Greek")
    ∷ language (codes "gu") (codes "Gujarati")
    ∷ language (codes "ht") (codes "Haitian Creole")
    ∷ language (codes "ha") (codes "Hausa")
    ∷ language (codes "haw") (codes "Hawaiian")
    ∷ language (codes "he") (codes "Hebrew")
    ∷ language (codes "hi") (codes "Hindi")
    ∷ language (codes "hu") (codes "Hungarian")
    ∷ language (codes "is") (codes "Icelandic")
    ∷ language (codes "id") (codes "Indonesian")
    ∷ language (codes "it") (codes "Italian")
    ∷ language (codes "ja") (codes "Japanese")
    ∷ language (codes "jw") (codes "Javanese")
    ∷ language (codes "kn") (codes "Kannada")
    ∷ language (codes "kk") (codes "Kazakh")
    ∷ language (codes "km") (codes "Khmer")
    ∷ language (codes "ko") (codes "Korean")
    ∷ language (codes "lo") (codes "Lao")
    ∷ language (codes "la") (codes "Latin")
    ∷ language (codes "lv") (codes "Latvian")
    ∷ language (codes "ln") (codes "Lingala")
    ∷ language (codes "lt") (codes "Lithuanian")
    ∷ language (codes "lb") (codes "Luxembourgish")
    ∷ language (codes "mk") (codes "Macedonian")
    ∷ language (codes "mg") (codes "Malagasy")
    ∷ language (codes "ms") (codes "Malay")
    ∷ language (codes "ml") (codes "Malayalam")
    ∷ language (codes "mt") (codes "Maltese")
    ∷ language (codes "mi") (codes "Maori")
    ∷ language (codes "mr") (codes "Marathi")
    ∷ language (codes "mn") (codes "Mongolian")
    ∷ language (codes "ne") (codes "Nepali")
    ∷ language (codes "no") (codes "Norwegian")
    ∷ language (codes "nn") (codes "Nynorsk")
    ∷ language (codes "oc") (codes "Occitan")
    ∷ language (codes "ps") (codes "Pashto")
    ∷ language (codes "fa") (codes "Persian")
    ∷ language (codes "pl") (codes "Polish")
    ∷ language (codes "pt") (codes "Portuguese")
    ∷ language (codes "pa") (codes "Punjabi")
    ∷ language (codes "ro") (codes "Romanian")
    ∷ language (codes "ru") (codes "Russian")
    ∷ language (codes "sa") (codes "Sanskrit")
    ∷ language (codes "sr") (codes "Serbian")
    ∷ language (codes "sn") (codes "Shona")
    ∷ language (codes "sd") (codes "Sindhi")
    ∷ language (codes "si") (codes "Sinhala")
    ∷ language (codes "sk") (codes "Slovak")
    ∷ language (codes "sl") (codes "Slovenian")
    ∷ language (codes "so") (codes "Somali")
    ∷ language (codes "es") (codes "Spanish")
    ∷ language (codes "su") (codes "Sundanese")
    ∷ language (codes "sw") (codes "Swahili")
    ∷ language (codes "sv") (codes "Swedish")
    ∷ language (codes "tl") (codes "Tagalog")
    ∷ language (codes "tg") (codes "Tajik")
    ∷ language (codes "ta") (codes "Tamil")
    ∷ language (codes "tt") (codes "Tatar")
    ∷ language (codes "te") (codes "Telugu")
    ∷ language (codes "th") (codes "Thai")
    ∷ language (codes "bo") (codes "Tibetan")
    ∷ language (codes "tr") (codes "Turkish")
    ∷ language (codes "tk") (codes "Turkmen")
    ∷ language (codes "uk") (codes "Ukrainian")
    ∷ language (codes "ur") (codes "Urdu")
    ∷ language (codes "uz") (codes "Uzbek")
    ∷ language (codes "vi") (codes "Vietnamese")
    ∷ language (codes "cy") (codes "Welsh")
    ∷ language (codes "yi") (codes "Yiddish")
    ∷ language (codes "yo") (codes "Yoruba")
    ∷ []

unfoldable pub find_language : Text → List Language → Option Language
find_language code [] = none
find_language code (l ∷ ls) = if text_eq l.code code then some l else find_language code ls

unfoldable pub language_by_code : Text → Option Language
language_by_code code = find_language code whisper_languages
