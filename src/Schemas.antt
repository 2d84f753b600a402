-- ===== src/Schemas.antt =====
-- agent_personal_vault/schemas.py: the fields of a profile, in their order.
use agent_personal_vault.Prelude.{
  String, Bool, true, false, Option, some, List, [], ◌∷◌, none, ◌==◌, if◌then◌else◌,
}

pub record FieldSpec : Type 0 where
  pub label : String
  pub group : String
  pub sensitivity : String
  pub optional : Bool
  pub hint : String
  pub example : String
  pub input_type : String
  pub options : List String

-- `FieldSpec(label, group)` with the defaults
abbrev field_spec : String → String → String → FieldSpec
field_spec label group example = record {
  label = label;
  group = group;
  sensitivity = "personal";
  optional = false;
  hint = "";
  example = example;
  input_type = "text";
  options = [];
}

abbrev optional_spec : String → String → String → FieldSpec
optional_spec label group example = record (field_spec label group example) { optional = true }

abbrev prefectures : List String
prefectures =
    "" ∷ "北海道" ∷ "青森県" ∷ "岩手県" ∷ "宮城県" ∷ "秋田県" ∷ "山形県" ∷ "福島県" ∷ "茨城県" ∷ "栃木県" ∷ "群馬県" ∷ "埼玉県"
    ∷ "千葉県" ∷ "東京都" ∷ "神奈川県" ∷ "新潟県" ∷ "富山県" ∷ "石川県" ∷ "福井県" ∷ "山梨県" ∷ "長野県" ∷ "岐阜県" ∷ "静岡県" ∷ "愛知県"
    ∷ "三重県" ∷ "滋賀県" ∷ "京都府" ∷ "大阪府" ∷ "兵庫県" ∷ "奈良県" ∷ "和歌山県" ∷ "鳥取県" ∷ "島根県" ∷ "岡山県" ∷ "広島県" ∷ "山口県"
    ∷ "徳島県" ∷ "香川県" ∷ "愛媛県" ∷ "高知県" ∷ "福岡県" ∷ "佐賀県" ∷ "長崎県" ∷ "熊本県" ∷ "大分県" ∷ "宮崎県" ∷ "鹿児島県" ∷ "沖縄県"
    ∷ []

abbrev school_types : List String
school_types = "" ∷ "大学" ∷ "大学院" ∷ "短期大学" ∷ "専門学校" ∷ "高等専門学校" ∷ "その他" ∷ []

abbrev academic_field_types : List String
academic_field_types = "" ∷ "文系" ∷ "理系" ∷ "文理融合" ∷ "その他" ∷ []

abbrev degrees : List String
degrees = "" ∷ "学士" ∷ "修士" ∷ "博士" ∷ "短期大学士" ∷ "専門士" ∷ "高度専門士" ∷ "その他" ∷ []

-- A dict of text keys, as the list of its items.
abbrev pub Schema : Type 0
Schema = List (String × FieldSpec)

unfoldable pub job_hunting_profile : Schema
job_hunting_profile =
    ("FAMILY_NAME", record (field_spec "姓" "identity" "山田") { hint = "正式表記" })
    ∷ ("GIVEN_NAME", record (field_spec "名" "identity" "太郎") { hint = "正式表記" })
    ∷ ("FAMILY_NAME_KANA", field_spec "姓ふりがな" "identity" "やまだ")
    ∷ ("GIVEN_NAME_KANA", field_spec "名ふりがな" "identity" "たろう")
    ∷ ("BIRTH_DATE", record (field_spec "生年月日" "identity" "2000-04-01") { input_type = "date" })
    ∷ ("POSTAL_CODE", field_spec "郵便番号" "contact" "100-0001")
    ∷ ("PREFECTURE", record (field_spec "都道府県" "contact" "東京都") { options = prefectures })
    ∷ ("CITY_ADDRESS", field_spec "市区町村" "contact" "千代田区千代田")
    ∷ ("STREET_ADDRESS", field_spec "番地" "contact" "1-1")
    ∷ ("BUILDING_NAME", optional_spec "建物名・部屋番号" "contact" "サンプルマンション101")
    ∷ ("ADDRESS", field_spec "住所（提出用）" "contact" "東京都千代田区千代田1-1 サンプルマンション101")
    ∷ ("PHONE", field_spec "電話番号" "contact" "090-1234-5678")
    ∷ ("EMAIL", field_spec "メール" "contact" "taro@example.test")
    ∷ ("GRADUATION_PERIOD", field_spec "卒業・修了予定時期" "education" "2099年12月")
    ∷ ("SCHOOL_TYPE", record (field_spec "学校区分" "education" "大学") { options = school_types })
    ∷ (
      "ACADEMIC_FIELD_TYPE",
      record (field_spec "文理区分" "education" "文系") { options = academic_field_types },
    )
    ∷ ("UNIVERSITY_NAME", field_spec "大学名" "education" "サンプル大学")
    ∷ ("FACULTY_NAME", optional_spec "学部名" "education" "サンプル学部")
    ∷ ("DEPARTMENT_NAME", optional_spec "学科名" "education" "サンプル学科")
    ∷ ("GRADUATE_SCHOOL_NAME", optional_spec "大学院・研究科名" "graduate" "サンプル研究科")
    ∷ ("GRADUATE_MAJOR_NAME", optional_spec "専攻名" "graduate" "サンプル専攻")
    ∷ ("DEGREE", record (optional_spec "学位" "graduate" "修士") { options = degrees })
    ∷ (
      "ENROLLMENT_DATE",
      record (field_spec "大学入学年月" "education" "2022-04") { input_type = "month" },
    )
    ∷ ("COMPLETION_DATE", optional_spec "大学卒業年月" "education" "2026-03 卒業見込み")
    ∷ (
      "GRADUATE_ENROLLMENT_DATE",
      record (optional_spec "大学院入学年月" "graduate" "2026-04") { input_type = "month" },
    )
    ∷ ("GRADUATE_COMPLETION_DATE", optional_spec "大学院修了年月" "graduate" "2028-03 修了見込み")
    ∷ ("HIGH_SCHOOL_NAME", optional_spec "高校名" "extra_education" "サンプル高等学校")
    ∷ (
      "HIGH_SCHOOL_GRADUATION_DATE",
      record (optional_spec "高校卒業年月" "extra_education" "2022-03") { input_type = "month" },
    )
    ∷ ("QUALIFICATIONS", optional_spec "資格" "qualifications" "2024年6月 サンプル資格")
    ∷ ("FACE_PHOTO_PATH", optional_spec "顔写真ファイルパス" "assets" "assets/photo.jpg")
    ∷ ("NOTES", optional_spec "補足" "notes" "応募先ごとに変わる情報は固定しない")
    ∷ []

abbrev pub derived_labels : List (String × String)
derived_labels =
    ("FULL_NAME", "氏名（自動生成）")
    ∷ ("FULL_NAME_KANA", "ふりがな（自動生成）")
    ∷ ("NAME_SEPARATOR", "氏名の区切り（固定: 全角スペース）")
    ∷ []

-- `SCHEMAS[name]`
unfoldable pub find_schema : String → Option Schema
unfolding job_hunting_profile
find_schema name = if name == "job_hunting_profile" then some job_hunting_profile else none
