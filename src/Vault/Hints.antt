-- ===== src/Vault/Hints.antt =====
-- The hints of agent_personal_vault/vault.py, which tie words of a task to candidate keys.
use agent_personal_vault.Prelude.{String, List, [], ◌∷◌}

pub record TaskHint : Type 0 where
  pub name : String
  pub keywords : List String
  pub keys : List String
  pub reason : String

abbrev pub hint : String → List String → List String → String → TaskHint
hint name keywords keys reason = record {
  name = name;
  keywords = keywords;
  keys = keys;
  reason = reason;
}

abbrev pub task_hints : List TaskHint
task_hints =
    hint "full_name" ("identity" ∷ "name" ∷ "氏名" ∷ "名前" ∷ "本人" ∷ []) ("FULL_NAME" ∷ [])
      "a full name is the narrow candidate for a name request"
    ∷ hint "full_name_kana" ("name kana" ∷ "phonetic name" ∷ "ふりがな" ∷ "フリガナ" ∷ "氏名カナ" ∷ "名前カナ" ∷ [])
        ("FULL_NAME_KANA" ∷ []) "a phonetic full name is the narrow candidate for a kana request"
    ∷ hint "birth_date" ("birth date" ∷ "date of birth" ∷ "birthday" ∷ "生年月日" ∷ "誕生日" ∷ [])
        ("BIRTH_DATE" ∷ []) "a birth date is the narrow candidate for a birth-date request"
    ∷ hint "postal_code" ("postal code" ∷ "zip code" ∷ "郵便番号" ∷ []) ("POSTAL_CODE" ∷ [])
        "a postal code is the narrow candidate for a postal-code request"
    ∷ hint "address" ("address" ∷ "住所" ∷ []) ("ADDRESS" ∷ [])
        "the submission address is the narrow candidate for an address request"
    ∷ hint "phone" ("phone" ∷ "telephone" ∷ "電話" ∷ "電話番号" ∷ []) ("PHONE" ∷ [])
        "a phone number is the narrow candidate for a phone request"
    ∷ hint "email"
        ("email address" ∷ "e-mail address" ∷ "email" ∷ "e-mail" ∷ "メール" ∷ "メールアドレス" ∷ [])
        ("EMAIL" ∷ []) "an email address is the narrow candidate for an email request"
    ∷ hint "graduation_period" ("graduation period" ∷ "completion period" ∷ "卒業予定" ∷ "修了予定" ∷ [])
        ("GRADUATION_PERIOD" ∷ [])
        "the graduation period is the narrow candidate for an expected-completion request"
    ∷ hint "school_type" ("school type" ∷ "学校区分" ∷ []) ("SCHOOL_TYPE" ∷ [])
        "the school type is the narrow candidate for a school-type request"
    ∷ hint "academic_field_type" ("academic field type" ∷ "文理区分" ∷ []) ("ACADEMIC_FIELD_TYPE" ∷ [])
        "the academic field type is the narrow candidate for a field-type request"
    ∷ hint "university_name" ("university name" ∷ "大学名" ∷ []) ("UNIVERSITY_NAME" ∷ [])
        "the university name is the narrow candidate for a university-name request"
    ∷ hint "faculty_name" ("faculty name" ∷ "学部名" ∷ []) ("FACULTY_NAME" ∷ [])
        "the faculty name is the narrow candidate for a faculty request"
    ∷ hint "department_name" ("department name" ∷ "学科名" ∷ []) ("DEPARTMENT_NAME" ∷ [])
        "the department name is the narrow candidate for a department request"
    ∷ hint "graduate_school_name" ("graduate school name" ∷ "大学院名" ∷ "研究科名" ∷ [])
        ("GRADUATE_SCHOOL_NAME" ∷ [])
        "the graduate-school name is the narrow candidate for a graduate-school request"
    ∷ hint "graduate_major_name" ("graduate major" ∷ "専攻名" ∷ []) ("GRADUATE_MAJOR_NAME" ∷ [])
        "the graduate major is the narrow candidate for a major request"
    ∷ hint "degree" ("degree" ∷ "学位" ∷ []) ("DEGREE" ∷ [])
        "the degree is the narrow candidate for a degree request"
    ∷ hint "university_enrollment_date" ("university enrollment date" ∷ "大学入学年月" ∷ [])
        ("ENROLLMENT_DATE" ∷ [])
        "the university enrollment date is the narrow candidate for that date request"
    ∷ hint "university_completion_date" ("university completion date" ∷ "大学卒業年月" ∷ [])
        ("COMPLETION_DATE" ∷ [])
        "the university completion date is the narrow candidate for that date request"
    ∷ hint "graduate_enrollment_date" ("graduate enrollment date" ∷ "大学院入学年月" ∷ [])
        ("GRADUATE_ENROLLMENT_DATE" ∷ [])
        "the graduate enrollment date is the narrow candidate for that date request"
    ∷ hint "graduate_completion_date" ("graduate completion date" ∷ "大学院修了年月" ∷ [])
        ("GRADUATE_COMPLETION_DATE" ∷ [])
        "the graduate completion date is the narrow candidate for that date request"
    ∷ hint "high_school_name" ("high school name" ∷ "高校名" ∷ []) ("HIGH_SCHOOL_NAME" ∷ [])
        "the high-school name is the narrow candidate for a high-school request"
    ∷ hint "high_school_graduation_date" ("high school graduation date" ∷ "高校卒業年月" ∷ [])
        ("HIGH_SCHOOL_GRADUATION_DATE" ∷ [])
        "the high-school graduation date is the narrow candidate for that date request"
    ∷ hint "qualifications" ("qualification" ∷ "license" ∷ "資格" ∷ "免許" ∷ "certification" ∷ [])
        ("QUALIFICATIONS" ∷ []) "qualification fields are commonly needed for credential sections"
    ∷ hint "photo" ("photo" ∷ "picture" ∷ "image" ∷ "顔写真" ∷ "写真" ∷ "画像" ∷ [])
        ("FACE_PHOTO_PATH" ∷ [])
        "photo path is commonly needed when a form requests a profile image"
    ∷ []
